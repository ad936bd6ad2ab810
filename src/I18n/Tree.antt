-- ===== src/I18n/Tree.antt =====
-- The dictionaries of nasweb/frontend/src/i18n as trees of named entries.
use ollozuna_nas.Prelude.{String}

mutual
  pub data Node : Type 0 where
    text : String → Node
    group : Entries → Node

  pub data Entries : Type 0 where
    end : Entries
    entry : String → Node → Entries → Entries
