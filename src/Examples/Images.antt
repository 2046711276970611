-- ===== src/Examples/Images.antt =====
-- The serving of images at concrete inputs.
use zun_rust_server.Prelude.{◌≡◌, refl, sym, true, false, [], ◌∷◌, none, some}
use zun_rust_server.Prelude.Text.{text, starts_with, contains, text_eq}
use zun_rust_server.Prelude.Fields.{decimal, digits_rev, onto}
use zun_rust_server.Error.{ok}
use zun_rust_server.Hash.{hex}
use zun_rust_server.Server.{Server, write_file}
use zun_rust_server.Paths.{needs_slash, tmp_sibling, data_path, join}
use zun_rust_server.Derived.{RenderIo, thumb, extension}
use zun_rust_server.Images.File.{serve_file_with_ct, not_modified, etag_for, etag_text, respond}
use zun_rust_server.Images.Serve.{ImageEnv, Headers, serve_derived}
use zun_rust_server.Images.Kept.{Kept}
use zun_rust_server.Images.Recorded.{IsFresh, serve_derived-Kept}
use zun_rust_server.Images.Revalidate.{serve_file_revalidates}
use zun_rust_server.Examples.Data.{server, id_a}

abbrev render_io : RenderIo
render_io = record {
  create_dir_error = false;
  suffix = 1 ∷ 2 ∷ 3 ∷ 4 ∷ [];
  io = record { written = 0; write_error = false; rename_error = false; remove_error = false };
}

abbrev image_env : ImageEnv
image_env = record {
  renderer = record { data_dir = text "/data"; encode = λ format edge bytes. some bytes };
  with_extension = λ path ext. path;
  extension_of = λ path. some (text "png");
  above_zero = λ q. true;
  modified = λ path. some 7;
  jpeg_io = render_io;
  negotiated_io = render_io;
}

abbrev wants_avif : Headers
wants_avif = record { accept = some (text "image/avif,image/*"); if_none_match = none }

-- Only the output is on the disk.
abbrev only_output : Server
only_output = record server {
  disk = write_file (text "/data/outputs/a.png") (1 ∷ 2 ∷ []) (λ p. none);
}

nothing_staged : IsFresh image_env thumb id_a only_output
unfolding needs_slash starts_with data_path join extension contains tmp_sibling hex text_eq
nothing_staged abs h = let same : text "/data/thumbs/a.avif" ≡ abs = cc in rw (sym same) refl

serve_derived-Kept_example :
    Kept
      (text "/data")
      thumb
      id_a
      only_output
      (serve_derived image_env wants_avif thumb id_a only_output)
unfolding needs_slash starts_with
serve_derived-Kept_example =
    serve_derived-Kept image_env wants_avif thumb id_a only_output refl refl refl nothing_staged

serve_file_revalidates_example :
    serve_file_with_ct
      (λ p. some 7)
      (text "/x")
      (text "image/png")
      (some (text "\"3-7\""))
      (λ p. some (1 ∷ 2 ∷ 3 ∷ []))
    ≡ ok (not_modified (text "\"3-7\""))
unfolding serve_file_with_ct etag_for etag_text respond decimal digits_rev onto
serve_file_revalidates_example =
    serve_file_revalidates (λ p. some 7) (text "/x") (text "image/png") none
      (λ p. some (1 ∷ 2 ∷ 3 ∷ [])) _ (text "\"3-7\"") refl refl
