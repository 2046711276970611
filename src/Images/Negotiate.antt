-- ===== src/Images/Negotiate.antt =====
-- src/images.rs: `negotiate_derived_format`. The value of an `Accept` header is a text; `above_zero`
-- says of a text that it parses to an `f32` above zero.
use zun_rust_server.Prelude.{
  Bool, true, false, ◌&&◌, List, [], ◌∷◌, Option, none, some, if◌then◌else◌, map, any, all,
}
use zun_rust_server.Prelude.Text.{Text, text, text_eq, strip_prefix}
use zun_rust_server.Prelude.Fields.{split_on, trim, to_ascii_lowercase}
use zun_rust_server.Derived.{DerivedFormat, jpeg, avif}

abbrev pub weight_allows : (Text → Bool) → Option Text → Bool
weight_allows above_zero none = true
weight_allows above_zero (some q) = above_zero q

-- A parameter of a media range: only a weight of zero, or one that does not parse, forbids it.
unfoldable pub section_allows : (Text → Bool) → Text → Bool
unfolding strip_prefix
section_allows above_zero section = weight_allows above_zero (strip_prefix section (text "q="))

abbrev pub sections_allow : (Text → Bool) → List Text → Bool
sections_allow above_zero [] = false
sections_allow above_zero (media ∷ sections) =
    all (section_allows above_zero) sections && text_eq media (text "image/avif")

unfoldable pub part_allows : (Text → Bool) → Text → Bool
unfolding section_allows
part_allows above_zero part =
    sections_allow above_zero (map trim (split_on b';' (to_ascii_lowercase (trim part))))

unfoldable pub negotiate_derived_format : (Text → Bool) → Option Text → DerivedFormat
unfolding part_allows
negotiate_derived_format above_zero none = jpeg
negotiate_derived_format above_zero (some accept) =
    if any (part_allows above_zero) (split_on b',' accept) then avif else jpeg
