-- ===== src/HyperBinary/Decoder/Total.antt =====
-- The decoders of crates/hyper-binary/src/decoder/mod.rs end on any bytes: the fuel of their loops
-- is enough.
use pvcli.Prelude.{ℕ, zero, suc, ◌≤◌, ◌≡◌, ◌≢◌, refl, Bool, true, false, [], ◌∷◌, Bytes, length}
use pvcli.Prelude.{arith, if◌then◌else◌, ◌==◌}
use pvcli.Octets.{Octets, OctetsLaws}
use pvcli.Http.{Http, HeaderMap}
use pvcli.Poll.{Error, io, invalid_data, Outcome, done, failed, stuck}
use pvcli.StreamBuf.{StreamBuf}
use pvcli.StreamBuf.Refine.{Represents, EndsAs}
use pvcli.StreamBuf.Flat as FlatBuf
use pvcli.StreamBuf.Flat.{Flat, Reply, got, refused, pure, throw, read_exact, has_more_data}
use pvcli.StreamOctets.Flat.{with_octets, decode_varint_usize, read_with_varint_length}
use pvcli.HyperBinary.Decoder
use pvcli.HyperBinary.Decoder.Flat
use pvcli.HyperBinary.Decoder.Fields.{
  Lines, lines, invalid, varint_usize, counted, field_line, field_lines,
}
use pvcli.HyperBinary.Decoder.Implements.{decode_request-Implements, decode_response-Implements}
use pvcli.HyperBinary.Decoder.Ends.{
  Left, EndsUnder, Ends, Takes, >>=-EndsUnder, >>=-suc, >>=-Ends, takes_step, Takes-Ends,
}
use pvcli.HyperBinary.Decoder.Ends.{
  or_invalid-Ends, read_exact-Ends, has_more_data-Ends, to_usize-Ends, with_octets-Takes, pure-Ends,
  throw-Ends, either_step, zero_step,
}
use pvcli.HyperBinary.Decoder.LineLengths.{
  Shorter, ShorterPair, IsEnded, usize_step, counted_step, line_step, lines_step,
}

if-Ends : {A : Type 0} (b : Bool) (f g : Flat A) → Ends f → Ends g → Ends (if b then f else g)
if-Ends true f g h k = h
if-Ends false f g h k = k

from_lines-Ends : (l : Lines) → IsEnded l → Ends (Flat.from_lines l)
from_lines-Ends (lines h) e = pure-Ends h
from_lines-Ends invalid e = throw-Ends (io invalid_data)
from_lines-Ends Lines.stuck e = absurd e

not_got : {A : Type 0} {a : A} {rest : Bytes} → got a rest ≡ FlatBuf.stuck → ⊥
not_got e = cc

not_refused : {A : Type 0} {x : Error} → ◌≡◌ {A = Reply A} (refused x) FlatBuf.stuck → ⊥
not_refused e = cc

pub not_stuck :
    {A : Type 0} (m : ℕ) (r : Reply A) (q : Outcome StreamBuf A) → Left m r → EndsAs r q → q ≢ stuck
not_stuck m r (done a s) l e = λ f. cc
not_stuck m r (failed x s) l e = λ f. cc
not_stuck m (got a rest) stuck l e = absurd (not_got e)
not_stuck m (refused x) stuck l e = absurd (not_refused e)
not_stuck m FlatBuf.stuck stuck l e = absurd l

module _ (o : Octets) (laws : OctetsLaws o) (h : Http) (usize_max : ℕ) where
  usize-Takes : Takes (decode_varint_usize o usize_max)
  unfolding decode_varint_usize
  usize-Takes bs =
      takes_step (length bs) (with_octets o.get_varint bs) _
        (with_octets-Takes o.get_varint laws.varint_reader bs) (to_usize-Ends usize_max)

  counted-Takes : Takes (read_with_varint_length o usize_max)
  unfolding read_with_varint_length
  counted-Takes bs =
      takes_step (length bs) (decode_varint_usize o usize_max bs) _ (usize-Takes bs) read_exact-Ends

  counted-Ends : Ends (read_with_varint_length o usize_max)
  counted-Ends = Takes-Ends _ counted-Takes

  varint_usize-ShorterPair :
      (buf : Bytes) → ShorterPair (length buf) (varint_usize o h usize_max buf)
  unfolding varint_usize
  varint_usize-ShorterPair buf =
      usize_step usize_max o.get_varint laws.varint_reader buf (o.get_varint buf) refl

  counted-ShorterPair : (buf : Bytes) → ShorterPair (length buf) (counted o h usize_max buf)
  unfolding counted
  counted-ShorterPair buf =
      counted_step (length buf) (varint_usize o h usize_max buf) (varint_usize-ShorterPair buf)

  field_line-Shorter : (buf : Bytes) → Shorter (length buf) (field_line o h usize_max buf)
  unfolding field_line
  field_line-Shorter buf =
      line_step (length buf) (counted o h usize_max) h.header_name h.header_value
        (counted o h usize_max buf) (counted-ShorterPair buf) counted-ShorterPair

  field_lines-IsEnded :
      (fuel : ℕ) (buf : Bytes) (headers : HeaderMap)
      → length buf ≤ fuel
      → IsEnded (field_lines o h usize_max fuel buf headers)
  unfolding field_lines
  field_lines-IsEnded fuel [] headers le = tt
  field_lines-IsEnded zero (x ∷ buf) headers le = absurd (omega arith)
  field_lines-IsEnded (suc fuel) (x ∷ buf) headers le =
      lines_step fuel (length (x ∷ buf)) (field_line o h usize_max (x ∷ buf)) h headers
        (λ name value rest hs. field_lines o h usize_max fuel rest hs) le
        (field_line-Shorter (x ∷ buf))
        (λ name value rest hs lt. field_lines-IsEnded fuel rest hs lt)

  known_length_section-Ends : Ends (Flat.decode_known_length_field_section o h usize_max)
  unfolding Flat.decode_known_length_field_section
  known_length_section-Ends = >>=-Ends _ _ has_more_data-Ends λ more.
      if-Ends more _ _
        (>>=-Ends _ _ counted-Ends
          λ buf. from_lines-Ends _ (field_lines-IsEnded (length buf) buf [] (omega arith)))
        (pure-Ends [])

  loop-EndsUnder :
      (fuel : ℕ) (headers : HeaderMap)
      → EndsUnder fuel (Flat.indeterminate_length_loop o h usize_max fuel headers)
  unfolding Flat.indeterminate_length_loop
  loop-EndsUnder zero headers = λ bs lt. absurd (omega arith)
  loop-EndsUnder (suc fuel) headers =
      >>=-EndsUnder (suc fuel) has_more_data _ has_more_data-Ends λ more.
        either_step (suc fuel) more _ _ (λ bs lt. omega arith)
          (>>=-suc fuel (decode_varint_usize o usize_max) _ usize-Takes λ n.
            zero_step fuel n _ _ (λ bs lt. omega arith)
              λ len.
                >>=-EndsUnder fuel (read_exact (suc len)) _ (read_exact-Ends (suc len)) λ raw_name.
                  >>=-EndsUnder fuel (Flat.or_invalid (h.header_name raw_name)) _
                    (or_invalid-Ends _)
                    λ name.
                      >>=-EndsUnder fuel (read_with_varint_length o usize_max) _ counted-Ends
                        λ raw_value.
                          >>=-EndsUnder fuel (Flat.or_invalid (h.header_value raw_value)) _
                            (or_invalid-Ends _)
                            λ value. loop-EndsUnder fuel (h.append headers name value))

  indeterminate_section-Ends : Ends (Flat.decode_indeterminate_length_field_section o h usize_max)
  unfolding Flat.decode_indeterminate_length_field_section
  indeterminate_section-Ends = record {
    at = λ bs. loop-EndsUnder (suc (length bs)) [] bs (omega arith);
  }

  request_control-Ends : Ends (Flat.decode_request_control_data o h usize_max)
  unfolding Flat.decode_request_control_data
  request_control-Ends = >>=-Ends _ _ counted-Ends λ raw_method.
      >>=-Ends _ _ (or_invalid-Ends _) λ method. >>=-Ends _ _ counted-Ends λ raw_scheme.
        >>=-Ends _ _ (or_invalid-Ends _) λ scheme. >>=-Ends _ _ counted-Ends λ raw_authority.
          >>=-Ends _ _ (or_invalid-Ends _) λ authority.
            >>=-Ends _ _ counted-Ends
              λ raw_path. >>=-Ends _ _ (or_invalid-Ends _) λ path. pure-Ends _

  known_length_body-Ends : Ends (Flat.known_length_body o h usize_max)
  unfolding Flat.known_length_body
  known_length_body-Ends = >>=-Ends _ _ has_more_data-Ends λ more.
      >>=-Ends _ _
        (if-Ends more _ _ (Takes-Ends _ (with_octets-Takes o.get_varint laws.varint_reader))
          (pure-Ends 0))
        λ remaining. pure-Ends _

  status-Takes : Takes (Flat.decode_status o h usize_max)
  unfolding Flat.decode_status
  status-Takes bs =
      takes_step (length bs) (decode_varint_usize o usize_max bs) _ (usize-Takes bs)
        λ v. or_invalid-Ends _

  skip-EndsUnder :
      (fuel status : ℕ) → EndsUnder fuel (Flat.skip_informational o h usize_max fuel status)
  unfolding Flat.skip_informational
  skip-EndsUnder zero status = λ bs lt. absurd (omega arith)
  skip-EndsUnder (suc fuel) status =
      either_step (suc fuel) (h.is_informational status) _ _ (λ bs lt. omega arith)
        (>>=-EndsUnder (suc fuel) (Flat.decode_known_length_field_section o h usize_max) _
          known_length_section-Ends
          λ skipped.
            >>=-suc fuel (Flat.decode_status o h usize_max) _ status-Takes
              λ next. skip-EndsUnder fuel next)

  response_control-Ends : Ends (Flat.decode_response_control_data o h usize_max)
  unfolding Flat.decode_response_control_data
  response_control-Ends =
      >>=-Ends _ _ (Takes-Ends _ status-Takes)
        λ status. record { at = λ bs. skip-EndsUnder (suc (length bs)) status bs (omega arith) }

  flat_request-Ends : Ends (Flat.decode_request o h usize_max)
  unfolding Flat.decode_request Flat.decode_known_length_request
      Flat.decode_indeterminate_length_request
  flat_request-Ends =
      >>=-Ends _ _ (Takes-Ends _ (with_octets-Takes o.get_varint laws.varint_reader)) λ framing.
        if-Ends (framing == 0) _ _
          (>>=-Ends _ _ request_control-Ends λ control.
            >>=-Ends _ _ known_length_section-Ends
              λ headers. >>=-Ends _ _ known_length_body-Ends λ body. or_invalid-Ends _)
          (if-Ends (framing == 2) _ _
            (>>=-Ends _ _ request_control-Ends
              λ control. >>=-Ends _ _ indeterminate_section-Ends λ headers. or_invalid-Ends _)
            (throw-Ends (io invalid_data)))

  flat_response-Ends : Ends (Flat.decode_response o h usize_max)
  unfolding Flat.decode_response Flat.decode_known_length_response
      Flat.decode_indeterminate_length_response
  flat_response-Ends =
      >>=-Ends _ _ (Takes-Ends _ (with_octets-Takes o.get_varint laws.varint_reader)) λ framing.
        if-Ends (framing == 1) _ _
          (>>=-Ends _ _ response_control-Ends λ status.
            >>=-Ends _ _ known_length_section-Ends
              λ headers. >>=-Ends _ _ known_length_body-Ends λ body. pure-Ends _)
          (if-Ends (framing == 3) _ _
            (>>=-Ends _ _ response_control-Ends
              λ status. >>=-Ends _ _ indeterminate_section-Ends λ headers. pure-Ends _)
            (throw-Ends (io invalid_data)))

  -- Let `s` stand for the bytes `bs`, any bytes: its stream is clean and `bs` fits under the size
  -- limit. Then `decode_request` ends, with a request or an error.
  pub decode_request-not_stuck :
      (s : StreamBuf) (bs : Bytes)
      → Represents s bs
      → Decoder.decode_request o h usize_max s ≢ stuck
  decode_request-not_stuck s bs rep =
      not_stuck (length bs) _ _ (flat_request-Ends.at bs)
        (decode_request-Implements o laws h usize_max s bs rep)

  -- Let `s` stand for the bytes `bs`, any bytes. Then `decode_response` ends, with a response or
  -- an error.
  pub decode_response-not_stuck :
      (s : StreamBuf) (bs : Bytes)
      → Represents s bs
      → Decoder.decode_response o h usize_max s ≢ stuck
  decode_response-not_stuck s bs rep =
      not_stuck (length bs) _ _ (flat_response-Ends.at bs)
        (decode_response-Implements o laws h usize_max s bs rep)
