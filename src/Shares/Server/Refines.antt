-- ===== src/Shares/Server/Refines.antt =====
-- The view of the shares refines a map from ids to shares (`SharesView`, nasweb/frontend/src/js/app.js).
use ollozuna_nas.Shares.View.{View}
use ollozuna_nas.Shares.Server.{Server}
