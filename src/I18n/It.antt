-- ===== src/I18n/It.antt =====
-- The Italian dictionary, nasweb/frontend/src/i18n/it.js, one definition for each of its groups.
mod Raid
mod Qbt
use ollozuna_nas.I18n.Tree.{Node, Entries, text, group, end, entry}
use Raid.{it_raid}
use Qbt.{it_qbt}

abbrev it_app : Entries
it_app = entry "title" (text "NAS Manager") (entry "logout" (text "Esci") (end))

abbrev it_nav : Entries
it_nav = entry "dashboard" (text "Dashboard") (
    entry "users" (text "Utenti") (
      entry "shares" (text "Condivisioni") (
        entry "files" (text "File") (
          entry "raid" (text "RAID") (
            entry "dlna" (text "Server DLNA") (
              entry "qbt" (text "qBittorrent") (
                entry "admin" (text "Amministrazione")
                  (entry "settings" (text "Impostazioni") (end)))))))))

abbrev it_admin : Entries
it_admin = entry "power" (text "Alimentazione") (
    entry "powerHint" (text "Riavvia o spegni il NAS. Le operazioni in corso verranno interrotte.")
      (entry "reboot" (text "Riavvia") (
        entry "shutdown" (text "Spegni") (
          entry "confirmReboot"
            (text "Il sistema verrà riavviato ora. La connessione cadrà per qualche minuto.")
            (entry "confirmShutdown"
              (text "Il sistema verrà spento ora. Dovrai riaccenderlo manualmente.")
              (entry "rebooting" (text "Riavvio in corso… ricarica la pagina tra qualche minuto.") (
                entry "shuttingDown" (text "Spegnimento in corso…") (
                  entry "logs" (text "Log di sistema") (
                    entry "allUnits" (text "Tutti i servizi") (
                      entry "refresh" (text "Aggiorna")
                        (entry "noLogs" (text "Nessuna riga di log.") (end))))))))))))

abbrev it_login : Entries
it_login = entry "title" (text "Accedi") (
    entry "username" (text "Nome utente") (
      entry "password" (text "Password")
        (entry "submit" (text "Accedi") (entry "error" (text "Credenziali non valide") (end)))))

abbrev it_users : Entries
it_users = entry "title" (text "Gestione utenti") (
    entry "create" (text "Nuovo utente") (
      entry "username" (text "Nome utente") (
        entry "comment" (text "Descrizione") (
          entry "password" (text "Password") (
            entry "delete" (text "Elimina")
              (entry "confirmDelete" (text "Eliminare l'utente {name}?") (end)))))))

abbrev it_dlna : Entries
it_dlna = entry "title" (text "Server DLNA") (
    entry "addDir" (text "Aggiungi cartella") (
      entry "path" (text "Percorso") (
        entry "type" (text "Tipo") (
          entry "rescan" (text "Ricostruisci catalogo") (
            entry "remove" (text "Rimuovi") (
              entry "empty" (text "Nessuna cartella multimediale configurata") (
                entry "add" (text "Aggiungi") (
                  entry "types"
                    (group (
                      entry "" (text "Tutti") (
                        entry "A" (text "Audio")
                          (entry "V" (text "Video") (entry "P" (text "Immagini") (end))))))
                    (end)))))))))

abbrev it_shares : Entries
it_shares = entry "title" (text "Condivisioni di rete") (
    entry "create" (text "Nuova condivisione") (
      entry "name" (text "Nome") (
        entry "path" (text "Percorso") (
          entry "protocol" (text "Protocollo") (
            entry "readOnly" (text "Sola lettura") (
              entry "enabled" (text "Abilitata") (
                entry "allowedIps" (text "IP/reti autorizzati (NFS)") (
                  entry "validUsers" (text "Utenti autorizzati (SMB)") (
                    entry "actions" (text "Azioni") (
                      entry "add" (text "Aggiungi") (
                        entry "enable" (text "Abilita") (
                          entry "disable" (text "Disabilita") (
                            entry "delete" (text "Elimina") (
                              entry "empty" (text "Nessuna condivisione configurata") (
                                entry "csvHint" (text "separati da virgola") (
                                  entry "confirmDelete" (text "Eliminare la condivisione “{name}”?")
                                    (entry "confirmDisable"
                                      (text "Disabilitare “{name}”? I client perderanno l'accesso.")
                                      (end))))))))))))))))))

abbrev it_files : Entries
it_files = entry "title" (text "File") (
    entry "upload" (text "Carica") (
      entry "download" (text "Scarica") (
        entry "newFolder" (text "Nuova cartella") (
          entry "rename" (text "Rinomina") (
            entry "delete" (text "Elimina") (
              entry "name" (text "Nome") (
                entry "size" (text "Dimensione") (
                  entry "modified" (text "Modificato") (
                    entry "permissions" (text "Permessi") (
                      entry "actions" (text "Azioni") (
                        entry "root" (text "Inizio") (
                          entry "empty" (text "Cartella vuota") (
                            entry "dropHint" (text "Trascina qui i file per caricarli") (
                              entry "deleteSelected" (text "Elimina selezionati") (
                                entry "chmod" (text "Permessi") (
                                  entry "confirmDelete" (text "Eliminare “{name}”?") (
                                    entry "confirmDeleteN" (text "Eliminare {count} elementi?") (
                                      entry "mkdirPrompt" (text "Nome della nuova cartella:") (
                                        entry "renamePrompt" (text "Nuovo nome:") (
                                          entry "chmodPrompt" (text "Permessi in ottale (es. 755):")
                                            (entry "uploading" (text "Caricamento di {name}…")
                                              (end))))))))))))))))))))))

abbrev it_common : Entries
it_common = entry "save" (text "Salva") (
    entry "cancel" (text "Annulla") (
      entry "confirm" (text "Conferma") (
        entry "loading" (text "Caricamento…") (
          entry "error" (text "Si è verificato un errore")
            (entry "recommended" (text "consigliato") (end))))))

unfoldable pub it_dict : Node
it_dict = group (
    entry "app" (group it_app) (
      entry "nav" (group it_nav) (
        entry "admin" (group it_admin) (
          entry "qbt" (group it_qbt) (
            entry "login" (group it_login) (
              entry "users" (group it_users) (
                entry "raid" (group it_raid) (
                  entry "dlna" (group it_dlna) (
                    entry "shares" (group it_shares) (
                      entry "files" (group it_files)
                        (entry "common" (group it_common) (end))))))))))))
