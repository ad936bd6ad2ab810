-- ===== src/I18n/En.antt =====
-- The English dictionary, nasweb/frontend/src/i18n/en.js, one definition for each of its groups.
mod Raid
mod Qbt
use ollozuna_nas.I18n.Tree.{Node, Entries, text, group, end, entry}
use Raid.{en_raid}
use Qbt.{en_qbt}

abbrev en_app : Entries
en_app = entry "title" (text "NAS Manager") (entry "logout" (text "Log out") (end))

abbrev en_nav : Entries
en_nav = entry "dashboard" (text "Dashboard") (
    entry "users" (text "Users") (
      entry "shares" (text "Shares") (
        entry "files" (text "Files") (
          entry "raid" (text "RAID") (
            entry "dlna" (text "DLNA Server") (
              entry "qbt" (text "qBittorrent") (
                entry "admin" (text "Administration")
                  (entry "settings" (text "Settings") (end)))))))))

abbrev en_admin : Entries
en_admin = entry "power" (text "Power") (
    entry "powerHint"
      (text "Reboot or shut down the NAS. Any running operations will be interrupted.")
      (entry "reboot" (text "Reboot") (
        entry "shutdown" (text "Shut down") (
          entry "confirmReboot"
            (text "The system will reboot now. The connection will drop for a few minutes.")
            (entry "confirmShutdown"
              (text "The system will shut down now. You will have to power it back on manually.")
              (entry "rebooting" (text "Rebooting… reload the page in a few minutes.") (
                entry "shuttingDown" (text "Shutting down…") (
                  entry "logs" (text "System logs") (
                    entry "allUnits" (text "All services") (
                      entry "refresh" (text "Refresh")
                        (entry "noLogs" (text "No log lines.") (end))))))))))))

abbrev en_login : Entries
en_login = entry "title" (text "Sign in") (
    entry "username" (text "Username") (
      entry "password" (text "Password")
        (entry "submit" (text "Sign in") (entry "error" (text "Invalid credentials") (end)))))

abbrev en_users : Entries
en_users = entry "title" (text "User management") (
    entry "create" (text "New user") (
      entry "username" (text "Username") (
        entry "comment" (text "Description") (
          entry "password" (text "Password") (
            entry "delete" (text "Delete")
              (entry "confirmDelete" (text "Delete user {name}?") (end)))))))

abbrev en_dlna : Entries
en_dlna = entry "title" (text "DLNA Server") (
    entry "addDir" (text "Add folder") (
      entry "path" (text "Path") (
        entry "type" (text "Type") (
          entry "rescan" (text "Rebuild catalog") (
            entry "remove" (text "Remove") (
              entry "empty" (text "No media folders configured") (
                entry "add" (text "Add") (
                  entry "types"
                    (group (
                      entry "" (text "All") (
                        entry "A" (text "Audio")
                          (entry "V" (text "Video") (entry "P" (text "Pictures") (end))))))
                    (end)))))))))

abbrev en_shares : Entries
en_shares = entry "title" (text "Network shares") (
    entry "create" (text "New share") (
      entry "name" (text "Name") (
        entry "path" (text "Path") (
          entry "protocol" (text "Protocol") (
            entry "readOnly" (text "Read only") (
              entry "enabled" (text "Enabled") (
                entry "allowedIps" (text "Allowed IPs/networks (NFS)") (
                  entry "validUsers" (text "Allowed users (SMB)") (
                    entry "actions" (text "Actions") (
                      entry "add" (text "Add") (
                        entry "enable" (text "Enable") (
                          entry "disable" (text "Disable") (
                            entry "delete" (text "Delete") (
                              entry "empty" (text "No shares configured") (
                                entry "csvHint" (text "comma-separated") (
                                  entry "confirmDelete" (text "Delete share “{name}”?") (
                                    entry "confirmDisable"
                                      (text "Disable “{name}”? Clients will lose access.")
                                      (end))))))))))))))))))

abbrev en_files : Entries
en_files = entry "title" (text "Files") (
    entry "upload" (text "Upload") (
      entry "download" (text "Download") (
        entry "newFolder" (text "New folder") (
          entry "rename" (text "Rename") (
            entry "delete" (text "Delete") (
              entry "name" (text "Name") (
                entry "size" (text "Size") (
                  entry "modified" (text "Modified") (
                    entry "permissions" (text "Permissions") (
                      entry "actions" (text "Actions") (
                        entry "root" (text "Home") (
                          entry "empty" (text "Empty folder") (
                            entry "dropHint" (text "Drop files here to upload") (
                              entry "deleteSelected" (text "Delete selected") (
                                entry "chmod" (text "Permissions") (
                                  entry "confirmDelete" (text "Delete “{name}”?") (
                                    entry "confirmDeleteN" (text "Delete {count} items?") (
                                      entry "mkdirPrompt" (text "New folder name:") (
                                        entry "renamePrompt" (text "New name:") (
                                          entry "chmodPrompt"
                                            (text "Permissions in octal (e.g. 755):")
                                            (entry "uploading" (text "Uploading {name}…")
                                              (end))))))))))))))))))))))

abbrev en_common : Entries
en_common = entry "save" (text "Save") (
    entry "cancel" (text "Cancel") (
      entry "confirm" (text "Confirm") (
        entry "loading" (text "Loading…") (
          entry "error" (text "An error occurred")
            (entry "recommended" (text "recommended") (end))))))

unfoldable pub en_dict : Node
en_dict = group (
    entry "app" (group en_app) (
      entry "nav" (group en_nav) (
        entry "admin" (group en_admin) (
          entry "qbt" (group en_qbt) (
            entry "login" (group en_login) (
              entry "users" (group en_users) (
                entry "raid" (group en_raid) (
                  entry "dlna" (group en_dlna) (
                    entry "shares" (group en_shares) (
                      entry "files" (group en_files)
                        (entry "common" (group en_common) (end))))))))))))
