-- ===== src/Purge/Files.antt =====
-- The files that the purge does not touch.
use zun_rust_server.Prelude.{◌≡◌, false, List, All}
use zun_rust_server.Prelude.Text.{Text, text_eq}
use zun_rust_server.Server.{Server}
use zun_rust_server.Paths.{join}
use zun_rust_server.Purge.{Env}

-- No file of the list is at `p`.
abbrev pub Apart : Env → Text → List Text → Type 0
Apart env p rels = All (λ rel. text_eq (join env.data_dir rel) p ≡ false) rels
