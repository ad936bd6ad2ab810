-- ===== src/Lib.antt =====
-- The web interface of ollozunaNAS: what the browser runs, nasweb/frontend/src.
--
-- The program is a single page on top of a JSON API. Its parts, and the files that model them:
--   - nasweb/frontend/src/js/i18n.js and nasweb/frontend/src/i18n/{it,en}.js, the texts. I18n.antt has
--     the lookup of a dotted key and the interpolation (`t`), I18n/Locale.antt the choice of the language
--     (`detectLocale`, `setLocale`), I18n/It.antt and I18n/En.antt the two dictionaries in full.
--   - nasweb/frontend/src/js/api.js, the client of the API. Api.antt has `request`, `uploadFiles` and
--     `downloadUrl`, Api/Endpoints.antt the members of `api`, one constructor of `Call` each, Api/Uri.antt
--     `encodeURIComponent` as the standard of the language defines it, and Api/Channel.antt `connectWS`.
--   - nasweb/frontend/src/js/app.js, the views. Raid.antt and its children are `RaidView`
--     with the modals: Raid/Capacity.antt `calcRaidCapacity`, Raid/Create.antt `CreateArrayModal`,
--     Raid/Expand.antt `ExpandModal`, `MarkFailedModal` and `RebuildModal`, Raid/Page.antt the state, the
--     handlers and `startProgress`, Raid/Page/Message.antt the question before an array is deleted,
--     Raid/Wipe.antt `WipeDiskModal`, and Raid/Table.antt what is computed for display. Files.antt is `FilesView`, with `joinPath`,
--     `parentPath` and the breadcrumb in Files/Paths.antt. Shares.antt has the data of the network
--     shares, Shares/Mapping.antt `mapShareFromAPI`, `mapCIFSToAPI` and `mapNFSToAPI`, Shares/View.antt the
--     state and the handlers of `SharesView`, Shares/CifsModal.antt with its children `CIFSModal`,
--     Shares/NfsModal.antt `NFSModal` and `ClientRulesModal`, Shares/Rules.antt `NFSRulesEditor`, and
--     Shares/Lists.antt the filters of `CIFSTab` and `NFSTab`; Toasts.antt is `useToast`. Qbt.antt is `QbtWizard`,
--     Qbt/Reach.antt the relation of its steps with the validations that run, Qbt/Picker.antt
--     `QbtFolderPicker`, and Qbt/Page.antt `QbtView`. Users.antt is `UsersView`, Users/Editor.antt `AddEditUserModal`, Users/Groups.antt the dialogs of
--     groups, and Users/Panels.antt the searches. Session.antt is `App` with the sidebar,
--     Session/Login.antt its form and Session/Poll.antt its polling. Filesystems.antt is
--     `FilesystemSection`, Filesystems/Format.antt `CreateFilesystemModal`, Filesystems/Mount.antt
--     `MountExistingModal`, Filesystems/Grow.antt `handleGrow`, Filesystems/Usage.antt `usedPct`,
--     and Filesystems/Smart.antt `SmartPanel`.
--     Admin.antt is `AdminView`, Dlna.antt `DlnaView` with `MediaLibrary`, and Folders.antt `FolderPicker`.
-- Shares/Server.antt is the interface between `SharesView` and the server: what the view relies on of a store of
-- shares, as operations and laws. Shares/Server/Session.antt joins the two, with the loading that follows each
-- success, and Shares/Server/Fates.antt has the map from ids to shares that this refines.
-- Json.antt has JSON values, Number.antt the rounding of a double to a percentage, and
-- Prelude.antt what all files share.
--
-- A view's state is a record of what its `useState` calls hold. A handler is a function from the
-- state, its arguments and the user's answer to the question that it asks, to the new state and
-- the calls that it starts; what a call brings back comes in later, as an argument of `receive` and the
-- like. What the browser and the server do (`fetch`, the texts that a message shows where a property
-- does not need them) is an argument. A set is a list with no item twice, and an object used as a
-- map an association list. Text is a list of code points. Sizes are natural numbers: the sizes of
-- disks and filesystems stay below 2^53, where a double holds them exactly. A percentage is computed
-- with the rounding of doubles (`round_percent`); a division by 0 gives none (`percent_of`).
--
-- The server of the shares keeps each under its id, lists all of them, and gives a new one a new id;
-- Shares/Server/Table.antt is one such server. A call is accepted, or refused with nothing written, or, as the
-- server may do, written and then answered with `apply_failed`. `toLowerCase` follows tables of Unicode and is an
-- argument of the searches.
--
-- `ticks` and `wait` are recursion on the number of ticks, and `timer-Ends` shows that the timer's own total is
-- enough. `to_double` has 128 doublings, enough for every quotient that is 0 or at least 2^-75, and the
-- digits of a number have one round more than the number counts. No other function needs fuel.
--
-- Not modelled: the markup, the formatting of sizes and dates, which the browser's locale and
-- floating-point logarithms decide, the views of app.js that no file above names, the vendored
-- libraries of nasweb/frontend/public/assets/vendor, and the server, nasweb/backend, but for the test of the CSRF token (`CSRF` of
-- nasweb/backend/internal/middleware/middleware.go) in Api/Csrf.antt.
mod Prelude
pub mod I18n
pub mod Json
pub mod Number
pub mod Raid
pub mod Api
pub mod Files
pub mod Shares
pub mod Qbt
pub mod Users
pub mod Session
pub mod Filesystems
pub mod Folders
pub mod Admin
pub mod Dlna
pub mod Toasts
