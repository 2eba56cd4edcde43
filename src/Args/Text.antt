-- ===== src/Args/Text.antt =====
-- What src/args.rs and src/pat.rs use of `str`, on the bytes of the text.
use pvcli.Prelude.{ℕ, ◌+◌, Bool, true, false, ◌&&◌, ◌||◌, [], ◌∷◌, Bytes, leb, ◌==◌, if◌then◌else◌}

abbrev pub lowercase : ℕ → ℕ
lowercase c = if leb 65 c && leb c 90 then c + 32 else c

abbrev pub to_ascii_lowercase : Bytes → Bytes
to_ascii_lowercase [] = []
to_ascii_lowercase (c ∷ cs) = lowercase c ∷ to_ascii_lowercase cs

unfoldable pub starts_with : Bytes → Bytes → Bool
starts_with text [] = true
starts_with [] (k ∷ key) = false
starts_with (c ∷ text) (k ∷ key) = (c == k) && starts_with text key

-- `str::contains`.
unfoldable pub contains_text : Bytes → Bytes → Bool
unfolding starts_with
contains_text [] key = starts_with [] key
contains_text (c ∷ text) key = starts_with (c ∷ text) key || contains_text text key
