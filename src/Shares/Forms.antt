-- ===== src/Shares/Forms.antt =====
-- The runs of the dialogs of shares, CIFSModal and NFSModal of nasweb/frontend/src/js/app.js.
mod Tests
