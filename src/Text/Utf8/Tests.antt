-- ===== src/Text/Utf8/Tests.antt =====
-- Tests of UTF-8.
use simple_sandbox_public.Prelude.{◌≡◌, refl, none, some, [], ◌∷◌}
use simple_sandbox_public.Text.Utf8.{as_bytes, from_utf8}

-- A euro sign.
as_bytes_test : as_bytes (0x20AC ∷ []) ≡ 0xE2 ∷ 0x82 ∷ 0xAC ∷ []
unfolding as_bytes
as_bytes_test = refl

-- A slash in two bytes, half of a surrogate pair, and a character that is cut off are refused.
overlong_test : from_utf8 (0xC0 ∷ 0xAF ∷ []) ≡ none
unfolding from_utf8
overlong_test = refl

surrogate_test : from_utf8 (0xED ∷ 0xA0 ∷ 0x80 ∷ []) ≡ none
unfolding from_utf8
surrogate_test = refl

cut_test : from_utf8 (0xE2 ∷ 0x82 ∷ []) ≡ none
unfolding from_utf8
cut_test = refl

four_test : from_utf8 (0xF0 ∷ 0x9F ∷ 0x98 ∷ 0x80 ∷ []) ≡ some (0x1F600 ∷ [])
unfolding from_utf8
four_test = refl
