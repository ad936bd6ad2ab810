-- ===== src/I18n/En/Raid.antt =====
-- The English texts of the RAID page, nasweb/frontend/src/i18n/en.js.
use ollozuna_nas.I18n.Tree.{Entries, text, group, end, entry}

abbrev pub en_raid : Entries
en_raid = entry "title" (text "RAID management") (
    entry "arrays" (text "Array Name") (
      entry "disks" (text "disks") (
        entry "create" (text "Create array") (
          entry "level" (text "Level") (
            entry "state" (text "Status") (
              entry "devices" (text "Disks") (
                entry "actions" (text "Actions") (
                  entry "expand" (text "Expand") (
                    entry "markFailed" (text "Mark Failed") (
                      entry "rebuild" (text "Rebuild") (
                        entry "addDisk" (text "Add disk") (
                          entry "removeDisk" (text "Remove disk") (
                            entry "confirmCreate"
                              (text
                                "Create the array? All data on the selected disks will be lost.")
                              (entry "states"
                                (group (
                                  entry "clean" (text "Healthy") (
                                    entry "active" (text "Active") (
                                      entry "degraded" (text "Degraded")
                                        (entry "rebuilding" (text "Rebuilding") (end))))))
                                (entry "availableDisks" (text "Available Disks") (
                                  entry "noDisksAvailable" (text "No disks available") (
                                    entry "diskDevice" (text "Device") (
                                      entry "diskSize" (text "Size") (
                                        entry "diskType" (text "Type") (
                                          entry "diskModel" (text "Model") (
                                            entry "diskStatus" (text "Status") (
                                              entry "diskFree" (text "Free") (
                                                entry "diskInUse" (text "In Use") (
                                                  entry "diskFailed" (text "Failed") (
                                                    entry "failedDisksSection" (text "Failed Disks")
                                                      (entry "existingArrays"
                                                        (text "Existing RAID Arrays")
                                                        (entry "disksUsed" (text "Disks Used") (
                                                          entry "totalSize" (text "Total Size") (
                                                            entry "health" (text "Health") (
                                                            entry "healthy" (text "✅ Healthy") (
                                                            entry "unhealthy" (text "⚠\u{fe0f}") (
                                                            entry "empty"
                                                            (text "No arrays configured")
                                                            (entry "selectDisks"
                                                            (text "Select disks")
                                                            (entry "arrayName" (text "Array name") (
                                                            entry "selectMoreDisks"
                                                            (text "Select at least 2 disks")
                                                            (entry "selectLevelHint"
                                                            (text "Select RAID level")
                                                            (entry "selectLevel"
                                                            (text "Please select a RAID level")
                                                            (entry "add" (text "Create") (
                                                            entry "estimatedCapacity"
                                                            (text "Estimated capacity")
                                                            (entry "currentCapacity"
                                                            (text "Current capacity")
                                                            (entry "newCapacity"
                                                            (text "New capacity")
                                                            (entry "expandTitle"
                                                            (text "Expand Volume")
                                                            (entry "confirmExpand"
                                                            (text "Confirm Expand")
                                                            (entry "notExpandable"
                                                            (text
                                                            "RAID 0 and RAID 1 arrays cannot be expanded. Use Create Array to build a new volume.")
                                                            (entry "expandRaid10Hint"
                                                            (text
                                                            "RAID 10 requires adding disks in pairs (must select an even number)")
                                                            (entry "selectAtLeastOne"
                                                            (text "Select at least one disk")
                                                            (entry "markFailedTitle"
                                                            (text "Mark Disk as Failed")
                                                            (entry "selectFailedDisk"
                                                            (text
                                                            "Select the disk you want to mark as FAILED")
                                                            (entry "confirmMarkFailed"
                                                            (text
                                                            "Mark {disk} as FAILED? This will degrade the array.")
                                                            (entry "confirmMarkFailedBtn"
                                                            (text "Mark as Failed")
                                                            (entry "rebuildTitle"
                                                            (text "Rebuild RAID")
                                                            (entry "rebuildMsg"
                                                            (text
                                                            "Disk {disk} is marked as FAILED. Replace it physically, then select the replacement disk below.")
                                                            (entry "selectReplacement"
                                                            (text "Select replacement disk")
                                                            (entry "startRebuild"
                                                            (text "Start Rebuild")
                                                            (entry "smartTitle"
                                                            (text "Disk Diagnostics (S.M.A.R.T.)")
                                                            (entry "smartDevice" (text "Device") (
                                                            entry "smartCheck" (text "Check") (
                                                            entry "smartHealth" (text "Health") (
                                                            entry "smartModel" (text "Model") (
                                                            entry "smartTemp" (text "Temperature") (
                                                            entry "smartHint"
                                                            (text
                                                            "Enter a device, e.g. sda or nvme0n1")
                                                            (entry "selectDiskHint"
                                                            (text "Select a disk…")
                                                            (entry "shortCheck" (text "Short Check")
                                                            (entry "extendedCheck"
                                                            (text "Extended Check")
                                                            (entry "shortRunning"
                                                            (text "Short test running…")
                                                            (entry "extendedRunning"
                                                            (text "Extended test running…")
                                                            (entry "powerOnHours"
                                                            (text "Power-On Hours")
                                                            (entry "reallocatedSectors"
                                                            (text "Reallocated Sectors")
                                                            (entry "readSpeed" (text "Read Speed") (
                                                            entry "testHistory"
                                                            (text "Test History")
                                                            (entry "testHistoryNA"
                                                            (text "Not available")
                                                            (entry "delete" (text "Delete") (
                                                            entry "confirmDelete"
                                                            (text
                                                            "Delete array {md}? All data on the array will be permanently destroyed.")
                                                            (entry "confirmDeleteMounted"
                                                            (text
                                                            "⚠\u{fe0f} Array {md} is MOUNTED at {mp} and contains a {fs} filesystem.\n\nDeleting it will first unmount it and the filesystem with all its data will be lost.\n\nProceed anyway?")
                                                            (entry "confirmDeleteFs"
                                                            (text
                                                            "⚠\u{fe0f} Array {md} contains a {fs} filesystem.\n\nDeleting it will lose the filesystem and all its data.\n\nProceed?")
                                                            (entry "formatTitle"
                                                            (text "Create Filesystem")
                                                            (entry "fsType" (text "Filesystem type")
                                                            (entry "formatWarning"
                                                            (text
                                                            "WARNING: This will erase all data on {md}. This action cannot be undone.")
                                                            (entry "confirmFormat"
                                                            (text
                                                            "Create filesystem? All data will be lost.")
                                                            (entry "formatting"
                                                            (text "Creating filesystem…")
                                                            (entry "formatSuccess"
                                                            (text
                                                            "Filesystem created successfully!")
                                                            (entry "formatBtn"
                                                            (text "Create Filesystem") (end)))))))))
                                                            ))))))))))))))))))))))))))))))))))))))))
                                                            ))))))))))))))))))))))))))))))))))
