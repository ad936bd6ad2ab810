-- ===== src/I18n/En/Qbt.antt =====
-- The English texts of the qBittorrent page, nasweb/frontend/src/i18n/en.js.
use ollozuna_nas.I18n.Tree.{Entries, text, group, end, entry}

abbrev pub en_qbt : Entries
en_qbt = entry "tooltipUnavailable" (text "Create at least one volume to enable this feature") (
    entry "introConfigure"
      (text
        "Configure qBittorrent by choosing folders for temporary files, .torrent files and completed downloads.")
      (entry "configure" (text "Configure qBittorrent") (
        entry "wizardSoon" (text "The setup wizard will start from here.") (
          entry "browse" (text "Browse") (
            entry "chooseFolder" (text "Choose Folder") (
              entry "volumesRoot" (text "Data volumes") (
                entry "noVolumes" (text "No data volume available.") (
                  entry "noSubfolders" (text "No subfolders.") (
                    entry "newFolder" (text "New Folder") (
                      entry "newFolderName" (text "New folder name:") (
                        entry "selectFolder" (text "Select this folder") (
                          entry "enterVolumeFirst" (text "Enter a volume first.") (
                            entry "wizardTitle" (text "qBittorrent Setup") (
                              entry "welcome" (text "Welcome") (
                                entry "welcomeDesc"
                                  (text "We'll configure the three folders qBittorrent uses:")
                                  (entry "stepTemp"
                                    (text "Temporary files folder (incomplete downloads)")
                                    (entry "stepTempDesc"
                                      (text
                                        "Where still-incomplete/temporary downloads are stored.")
                                      (entry "stepTorfile" (text ".torrent files folder") (
                                        entry "stepTorfileDesc"
                                          (text "Where .torrent files are kept/watched.")
                                          (entry "stepDownloads" (text "Completed downloads folder")
                                            (entry "stepDownloadsDesc"
                                              (text "Where qBittorrent moves files once complete.")
                                              (entry "summary" (text "Summary and validation") (
                                                entry "perms" (text "Permissions") (
                                                  entry "permsPrivate" (text "qBittorrent only") (
                                                    entry "permsShared"
                                                      (text "readable by shares/other apps")
                                                      (entry "webuiPort" (text "WebUI port") (
                                                        entry "validationOk"
                                                          (text "Validation passed.")
                                                          (entry "applying" (text "Applying") (
                                                            entry "applyingWait"
                                                            (text
                                                            "Installing package, creating directories, permissions, config and starting the service…")
                                                            (entry "done"
                                                            (text
                                                            "qBittorrent configured and started.")
                                                            (entry "credentials"
                                                            (text "Credentials")
                                                            (entry "savePassword"
                                                            (text
                                                            "Save this password: it won't be shown again.")
                                                            (entry "back" (text "Back") (
                                                            entry "next" (text "Next") (
                                                            entry "apply" (text "Apply") (
                                                            entry "finish" (text "Finish") (
                                                            entry "start" (text "Start") (
                                                            entry "stop" (text "Stop") (
                                                            entry "reconfigure" (text "Reconfigure")
                                                            (entry "state"
                                                            (group (
                                                            entry "unavailable" (text "Unavailable")
                                                            (entry "available"
                                                            (text "Not configured")
                                                            (entry "configured" (text "Configured")
                                                            (entry "running" (text "Running") (
                                                            entry "stopped" (text "Stopped")
                                                            (end)))))))
                                                            (end))))))))))))))))))))))))))))))))))))
                                                            )))))
