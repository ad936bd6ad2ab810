-- ===== src/I18n/It/Raid.antt =====
-- The Italian texts of the RAID page, nasweb/frontend/src/i18n/it.js.
use ollozuna_nas.I18n.Tree.{Entries, text, group, end, entry}

abbrev pub it_raid : Entries
it_raid = entry "title" (text "Gestione RAID") (
    entry "arrays" (text "Nome array") (
      entry "disks" (text "dischi") (
        entry "create" (text "Crea array") (
          entry "level" (text "Livello") (
            entry "state" (text "Stato") (
              entry "devices" (text "Dischi") (
                entry "actions" (text "Azioni") (
                  entry "expand" (text "Espandi") (
                    entry "markFailed" (text "Segna fallito") (
                      entry "rebuild" (text "Ricostruisci") (
                        entry "addDisk" (text "Aggiungi disco") (
                          entry "removeDisk" (text "Rimuovi disco") (
                            entry "confirmCreate"
                              (text
                                "Creare l'array? Tutti i dati sui dischi selezionati andranno persi.")
                              (entry "states"
                                (group (
                                  entry "clean" (text "Integro") (
                                    entry "active" (text "Attivo") (
                                      entry "degraded" (text "Degradato")
                                        (entry "rebuilding" (text "In ricostruzione") (end))))))
                                (entry "availableDisks" (text "Dischi Disponibili") (
                                  entry "noDisksAvailable" (text "Nessun disco disponibile") (
                                    entry "diskDevice" (text "Dispositivo") (
                                      entry "diskSize" (text "Dimensione") (
                                        entry "diskType" (text "Tipo") (
                                          entry "diskModel" (text "Modello") (
                                            entry "diskStatus" (text "Stato") (
                                              entry "diskFree" (text "Libero") (
                                                entry "diskInUse" (text "In uso") (
                                                  entry "diskFailed" (text "Fallito") (
                                                    entry "failedDisksSection"
                                                      (text "Dischi Falliti")
                                                      (entry "existingArrays"
                                                        (text "Array RAID Esistenti")
                                                        (entry "disksUsed" (text "Dischi usati") (
                                                          entry "totalSize"
                                                            (text "Dimensione totale")
                                                            (entry "health" (text "Salute") (
                                                            entry "healthy" (text "✅ Integro") (
                                                            entry "unhealthy" (text "⚠\u{fe0f}") (
                                                            entry "empty"
                                                            (text "Nessun array configurato")
                                                            (entry "selectDisks"
                                                            (text "Seleziona dischi")
                                                            (entry "arrayName" (text "Nome array") (
                                                            entry "selectMoreDisks"
                                                            (text "Seleziona almeno 2 dischi")
                                                            (entry "selectLevelHint"
                                                            (text "Seleziona livello RAID")
                                                            (entry "selectLevel"
                                                            (text "Seleziona un livello RAID")
                                                            (entry "add" (text "Crea") (
                                                            entry "estimatedCapacity"
                                                            (text "Capacità stimata")
                                                            (entry "currentCapacity"
                                                            (text "Capacità attuale")
                                                            (entry "newCapacity"
                                                            (text "Nuova capacità")
                                                            (entry "expandTitle"
                                                            (text "Espandi Volume")
                                                            (entry "confirmExpand"
                                                            (text "Conferma espansione")
                                                            (entry "notExpandable"
                                                            (text
                                                            "Gli array RAID 0 e RAID 1 non sono espandibili. Usa Crea Array per un nuovo volume.")
                                                            (entry "expandRaid10Hint"
                                                            (text
                                                            "RAID 10 richiede dischi in coppie (numero pari)")
                                                            (entry "selectAtLeastOne"
                                                            (text "Seleziona almeno un disco")
                                                            (entry "markFailedTitle"
                                                            (text "Segna disco come fallito")
                                                            (entry "selectFailedDisk"
                                                            (text
                                                            "Seleziona il disco da segnare come FALLITO")
                                                            (entry "confirmMarkFailed"
                                                            (text
                                                            "Segnare {disk} come FALLITO? L'array diventerà degradato.")
                                                            (entry "confirmMarkFailedBtn"
                                                            (text "Segna come fallito")
                                                            (entry "rebuildTitle"
                                                            (text "Ricostruisci RAID")
                                                            (entry "rebuildMsg"
                                                            (text
                                                            "Il disco {disk} è segnato come FALLITO. Sostituiscilo fisicamente, poi seleziona il disco sostitutivo.")
                                                            (entry "selectReplacement"
                                                            (text "Seleziona disco sostitutivo")
                                                            (entry "startRebuild"
                                                            (text "Avvia ricostruzione")
                                                            (entry "smartTitle"
                                                            (text "Diagnostica disco (S.M.A.R.T.)")
                                                            (entry "smartDevice"
                                                            (text "Dispositivo")
                                                            (entry "smartCheck" (text "Controlla") (
                                                            entry "smartHealth" (text "Salute") (
                                                            entry "smartModel" (text "Modello") (
                                                            entry "smartTemp" (text "Temperatura") (
                                                            entry "smartHint"
                                                            (text
                                                            "Inserisci un dispositivo, es. sda o nvme0n1")
                                                            (entry "selectDiskHint"
                                                            (text "Seleziona un disco…")
                                                            (entry "shortCheck" (text "Test rapido")
                                                            (entry "extendedCheck"
                                                            (text "Test esteso")
                                                            (entry "shortRunning"
                                                            (text "Test rapido in corso…")
                                                            (entry "extendedRunning"
                                                            (text "Test esteso in corso…")
                                                            (entry "powerOnHours"
                                                            (text "Ore di utilizzo")
                                                            (entry "reallocatedSectors"
                                                            (text "Settori rimappati")
                                                            (entry "readSpeed"
                                                            (text "Velocità lettura")
                                                            (entry "testHistory"
                                                            (text "Cronologia test")
                                                            (entry "testHistoryNA"
                                                            (text "Non disponibile")
                                                            (entry "delete" (text "Elimina") (
                                                            entry "confirmDelete"
                                                            (text
                                                            "Eliminare l'array {md}? Tutti i dati sull'array saranno distrutti definitivamente.")
                                                            (entry "confirmDeleteMounted"
                                                            (text
                                                            "⚠\u{fe0f} L'array {md} è MONTATO su {mp} e contiene un filesystem {fs}.\n\nEliminandolo verrà prima smontato e il filesystem con tutti i dati andrà perso.\n\nProcedere comunque?")
                                                            (entry "confirmDeleteFs"
                                                            (text
                                                            "⚠\u{fe0f} L'array {md} contiene un filesystem {fs}.\n\nEliminandolo il filesystem e tutti i dati andranno persi.\n\nProcedere?")
                                                            (entry "formatTitle"
                                                            (text "Crea filesystem")
                                                            (entry "fsType" (text "Tipo filesystem")
                                                            (entry "formatWarning"
                                                            (text
                                                            "ATTENZIONE: Questo cancellerà tutti i dati su {md}. L'operazione non è reversibile.")
                                                            (entry "confirmFormat"
                                                            (text
                                                            "Creare il filesystem? Tutti i dati andranno persi.")
                                                            (entry "formatting"
                                                            (text "Creazione filesystem in corso…")
                                                            (entry "formatSuccess"
                                                            (text "Filesystem creato con successo!")
                                                            (entry "formatBtn"
                                                            (text "Crea Filesystem") (end)))))))))))
                                                            ))))))))))))))))))))))))))))))))))))))))
                                                            ))))))))))))))))))))))))))))))))
