-- ===== src/StreamBuf/Flat.antt =====
-- The specification of StreamBuf: a cursor over one byte string that is there at once, with no
-- chunks, no `Pending` and no size limit.
use pvcli.Prelude.{ℕ, Bool, not, [], Bytes, length, is_empty, take, drop, leb, if◌then◌else◌}
use pvcli.Poll.{Error, io, unexpected_eof}

-- A value and the bytes behind it, or an error. `stuck` is no result: a loop's fuel ran out.
pub data Reply (A : Type 0) : Type 0 where
  got : A → Bytes → Reply A
  refused : Error → Reply A
  stuck : Reply A

abbrev pub Flat : Type 0 → Type 0
Flat A = Bytes → Reply A

abbrev pub pure : {A : Type 0} → A → Flat A
pure a bs = got a bs

abbrev pub throw : {A : Type 0} → Error → Flat A
throw e bs = refused e

abbrev pub and_then : {A B : Type 0} → (A → Flat B) → Reply A → Reply B
and_then f (got a rest) = f a rest
and_then f (refused e) = refused e
and_then f stuck = stuck

infixl 5 ◌>>=◌
abbrev pub ◌>>=◌ : {A B : Type 0} → Flat A → (A → Flat B) → Flat B
◌>>=◌ m f bs = and_then f (m bs)

-- Exactly `len` bytes.
unfoldable pub read_exact : ℕ → Flat Bytes
read_exact len bs =
    if leb len (length bs) then got (take len bs) (drop len bs) else refused (io unexpected_eof)

unfoldable pub read_to_end : Flat Bytes
read_to_end bs = got bs []

unfoldable pub has_more_data : Flat Bool
has_more_data bs = got (not (is_empty bs)) bs
