-- ===== src/Core/Frame/Prefix.antt =====
-- Frames that are cut short, and bytes that follow a frame.
use dlr.Prelude.{
  ℕ, ◌≡◌, sym, ap, ◌∙◌, arith, [], ◌∷◌, ◌++◌, length, drop, ◌≢◌, append-nil, length-append,
}
use dlr.Core.Bytes.{Bytes}
use dlr.Core.Frame.{Frame, encode_frame, IsFrame}
use dlr.Core.Frame.Reader.{Decoded, ok, err, panic, value}
use dlr.Core.Frame.Decode.{decode_body, decode_frame}
use dlr.Core.Frame.Copied.{copy_body, copy_body-IsReader}
use dlr.Core.Frame.Copy.{read_body-copy}
use dlr.Core.Frame.RoundTrip.{tag_of, encoded_body, copy_body-encode}

value-eq-ok :
    {A : Type 0} (d : Decoded (A × Bytes)) (a : A)
    → value d ≡ ok a
    → (rest : Bytes) × (d ≡ ok (a, rest))
value-eq-ok (ok (b, rest)) a h = (rest, ground arith)
value-eq-ok (err e) a h = absurd (cc)
value-eq-ok panic a h = absurd (cc)

-- A decoded frame stays the same when bytes are added behind the buffer.
pub decode_frame-append :
    (buf more : Bytes) (f : Frame) → decode_frame buf ≡ ok f → decode_frame (buf ++ more) ≡ ok f
unfolding decode_frame decode_body
decode_frame-append [] more f h = absurd (cc)
decode_frame-append (tag ∷ body) more f h =
    let (rest, e) = value-eq-ok (copy_body tag body) f (rw read_body-copy at h) in
    rw (read_body-copy, (copy_body-IsReader tag).extend body more f rest e)

-- No proper prefix of a frame's encoding decodes to a frame: a truncated transfer is never taken
-- for a shorter frame.
pub decode_frame_proper_prefix :
    (f g : Frame) (front : Bytes) (x : ℕ) (back : Bytes)
    → IsFrame f
    → encode_frame f ≡ front ++ (x ∷ back)
    → decode_frame front ≢ ok g
unfolding decode_frame decode_body
decode_frame_proper_prefix f g [] x back h e d = cc
decode_frame_proper_prefix f g (tag ∷ body) x back h e d =
    let (rest, r) = value-eq-ok (copy_body tag body) g (rw read_body-copy at d) in
    let long : copy_body tag (body ++ (x ∷ back)) ≡ ok (g, rest ++ (x ∷ back)) =
      (copy_body-IsReader tag).extend body (x ∷ back) g rest r in
    let whole : copy_body (tag_of f) (drop 1 (encode_frame f)) ≡ ok (f, []) =
      rw append-nil at (copy_body-encode f [] h) in
    let (b, eb) = encoded_body f in
    let same : tag_of f ∷ b ≡ tag ∷ (body ++ (x ∷ back)) = sym eb ∙ e in
    let whole' : copy_body (tag_of f) b ≡ ok (f, []) = rw eb at whole in
    let none_left : rest ++ (x ∷ back) ≡ [] = cc (same, whole', long) in
    absurd (omega (arith, ap (λ (l : Bytes). length l) none_left, length-append rest (x ∷ back)))
