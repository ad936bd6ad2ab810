-- ===== src/I18n/It/Qbt.antt =====
-- The Italian texts of the qBittorrent page, nasweb/frontend/src/i18n/it.js.
use ollozuna_nas.I18n.Tree.{Entries, text, group, end, entry}

abbrev pub it_qbt : Entries
it_qbt = entry "tooltipUnavailable" (text "Crea almeno un volume per attivare questa funzione") (
    entry "introConfigure"
      (text
        "Configura qBittorrent scegliendo le cartelle per i file provvisori, i .torrent e i download completati.")
      (entry "configure" (text "Configura qBittorrent") (
        entry "wizardSoon" (text "La procedura guidata verrà avviata da qui.") (
          entry "browse" (text "Sfoglia") (
            entry "chooseFolder" (text "Scegli cartella") (
              entry "volumesRoot" (text "Volumi dati") (
                entry "noVolumes" (text "Nessun volume dati disponibile.") (
                  entry "noSubfolders" (text "Nessuna sottocartella.") (
                    entry "newFolder" (text "Nuova cartella") (
                      entry "newFolderName" (text "Nome nuova cartella:") (
                        entry "selectFolder" (text "Seleziona questa cartella") (
                          entry "enterVolumeFirst" (text "Entra prima in un volume.") (
                            entry "wizardTitle" (text "Configurazione qBittorrent") (
                              entry "welcome" (text "Benvenuto") (
                                entry "welcomeDesc"
                                  (text "Configureremo le tre cartelle usate da qBittorrent:")
                                  (entry "stepTemp"
                                    (text "Cartella file provvisori (download incompleti)")
                                    (entry "stepTempDesc"
                                      (text
                                        "Dove finiscono i download ancora incompleti/temporanei.")
                                      (entry "stepTorfile" (text "Cartella file .torrent") (
                                        entry "stepTorfileDesc"
                                          (text
                                            "Dove vengono conservati/monitorati i file .torrent.")
                                          (entry "stepDownloads"
                                            (text "Cartella download completati")
                                            (entry "stepDownloadsDesc"
                                              (text
                                                "Dove qBittorrent sposta i file a download completato.")
                                              (entry "summary" (text "Riepilogo e validazione") (
                                                entry "perms" (text "Permessi") (
                                                  entry "permsPrivate" (text "solo qBittorrent") (
                                                    entry "permsShared"
                                                      (text "leggibile da share/altre app")
                                                      (entry "webuiPort" (text "Porta WebUI") (
                                                        entry "validationOk"
                                                          (text "Validazione superata.")
                                                          (entry "applying"
                                                            (text "Applicazione in corso")
                                                            (entry "applyingWait"
                                                            (text
                                                            "Installazione pacchetto, creazione directory, permessi, config e avvio del servizio…")
                                                            (entry "done"
                                                            (text
                                                            "qBittorrent configurato e avviato.")
                                                            (entry "credentials"
                                                            (text "Credenziali")
                                                            (entry "savePassword"
                                                            (text
                                                            "Salva questa password: non verrà mostrata di nuovo.")
                                                            (entry "back" (text "Indietro") (
                                                            entry "next" (text "Avanti") (
                                                            entry "apply" (text "Applica") (
                                                            entry "finish" (text "Fine") (
                                                            entry "start" (text "Avvia") (
                                                            entry "stop" (text "Ferma") (
                                                            entry "reconfigure" (text "Riconfigura")
                                                            (entry "state"
                                                            (group (
                                                            entry "unavailable"
                                                            (text "Non disponibile")
                                                            (entry "available"
                                                            (text "Da configurare")
                                                            (entry "configured" (text "Configurato")
                                                            (entry "running" (text "In esecuzione")
                                                            (entry "stopped" (text "Fermo")
                                                            (end)))))))
                                                            (end))))))))))))))))))))))))))))))))))))
                                                            )))))
