-- ===== src/Sniff/Rows/Frames.antt =====
-- What `try_parse_wireline` of src/wireline/sniff/dissect.py sees of a payload, against the frames
-- that `FrameBuffer` finds in it without a key.
use wireline.Codec.Encoding.{decode_frame-Assembles}
use wireline.Errors.{ok-injective, bind-eq-ok, Exn, Result, ok, raise}
use wireline.Base.Bytes.{Bytes}
use wireline.Base.{
  none, some, ◌++◌, map, zero, suc, ◌≤◌, ◌<◌, ◌≡◌, refl, sym, ap, ◌∙◌, inl, inr, List, [], ◌∷◌,
  arith, ltb, ltb→lt, lt→ltb, le→ltb_false, ltb_false→le, Bool-cases, lt→leb_false, le→leb, length,
  drop, slice, length-drop, ℕ,
}
use wireline.Codec.{type_name, decode_frame, Crypto, Frame, Header, decode_header}
use wireline.Framing.{FrameBuffer, pop, pop_frame, drain, frame_size, finished}
use wireline.Framing.Pop.{pop_view, short, refused, part, whole}
use wireline.Framing.Drain.{drain_induction, drain_of_none, drain_of_raise, drain_of_some}
use wireline.Framing.Turns.{pop_frame-ne-none}
use wireline.Sniff.Rows.{WirelineInfo, info_of, scan, scan_frame, try_parse_wireline}

scan_nil : (n : ℕ) (rest : Bytes) → length rest < 19 → scan n rest ≡ []
unfolding scan
scan_nil zero rest h = refl
scan_nil (suc n) rest h = rw (lt→leb_false 19 (length rest) h)

scan_header :
    (n : ℕ) (rest : Bytes)
    → 19 ≤ length rest
    → scan (suc n) rest ≡ scan_frame (decode_header (slice 0 19 rest)) rest (λ after. scan n after)
unfolding scan
scan_header n rest h = rw (le→leb 19 (length rest) h)

scan_frame_part :
    (h : Header) (rest : Bytes) (more : Bytes → List WirelineInfo)
    → length rest < frame_size h
    → scan_frame (ok h) rest more ≡ []
unfolding scan_frame
scan_frame_part h rest more l = rw (lt→ltb (length rest) (frame_size h) l)

scan_frame_whole :
    (h : Header) (rest : Bytes) (more : Bytes → List WirelineInfo)
    → frame_size h ≤ length rest
    → scan_frame (ok h) rest more ≡ info_of h ∷ more (drop (frame_size h) rest)
unfolding scan_frame
scan_frame_whole h rest more l = rw (le→ltb_false (length rest) (frame_size h) l)

frame_after_shrinks :
    (h : Header) (rest : Bytes)
    → frame_size h ≤ length rest
    → length (drop (frame_size h) rest) < length rest
frame_after_shrinks h rest l = omega (arith, length-drop (frame_size h) rest)

scan_frame_same :
    (r : Result Header) (rest : Bytes) (p q : Bytes → List WirelineInfo)
    → ((after : Bytes) → length after < length rest → p after ≡ q after)
    → scan_frame r rest p ≡ scan_frame r rest q
scan_frame_same (raise e) rest p q same = unfold scan_frame in refl
scan_frame_same (ok h) rest p q same = elim (Bool-cases (ltb (length rest) (frame_size h))) [
  | inl s ↦ scan_frame_part h rest p (ltb→lt _ _ s) ∙ sym (scan_frame_part h rest q (ltb→lt _ _ s))
  | inr l ↦
      let w = ltb_false→le (length rest) (frame_size h) l in
      scan_frame_whole h rest p w
      ∙ ap (λ l. info_of h ∷ l) (same (drop (frame_size h) rest) (frame_after_shrinks h rest w))
      ∙ sym (scan_frame_whole h rest q w)
]

-- Any fuel above the length of the bytes gives the same result.
scan_fuel : (n m : ℕ) (rest : Bytes) → length rest < n → length rest < m → scan n rest ≡ scan m rest
scan_fuel zero m rest h k = absurd (omega arith)
scan_fuel (suc n) zero rest h k = absurd (omega arith)
scan_fuel (suc n) (suc m) rest h k = elim (Bool-cases (ltb (length rest) 19)) [
  | inl s ↦ scan_nil (suc n) rest (ltb→lt _ _ s) ∙ sym (scan_nil (suc m) rest (ltb→lt _ _ s))
  | inr l ↦
      scan_header n rest (ltb_false→le _ _ l)
      ∙ scan_frame_same (decode_header (slice 0 19 rest)) rest _ _
          (λ after s. scan_fuel n m after (omega arith) (omega arith))
      ∙ sym (scan_header m rest (ltb_false→le _ _ l))
]

-- The four ways through the loop.
parse_short : (rest : Bytes) → length rest < 19 → try_parse_wireline rest ≡ []
unfolding try_parse_wireline
parse_short rest h = scan_nil (suc (length rest)) rest h

parse_refused :
    (rest : Bytes) (x : Exn)
    → 19 ≤ length rest
    → decode_header (slice 0 19 rest) ≡ raise x
    → try_parse_wireline rest ≡ []
unfolding try_parse_wireline
parse_refused rest x l e =
    scan_header (length rest) rest l
    ∙ ap (λ r. scan_frame r rest (λ after. scan (length rest) after)) e
    ∙ unfold scan_frame in refl

parse_part :
    (rest : Bytes) (h : Header)
    → 19 ≤ length rest
    → decode_header (slice 0 19 rest) ≡ ok h
    → length rest < frame_size h
    → try_parse_wireline rest ≡ []
unfolding try_parse_wireline
parse_part rest h l e s =
    scan_header (length rest) rest l
    ∙ ap (λ r. scan_frame r rest (λ after. scan (length rest) after)) e
    ∙ scan_frame_part h rest _ s

parse_whole :
    (rest : Bytes) (h : Header)
    → decode_header (slice 0 19 rest) ≡ ok h
    → frame_size h ≤ length rest
    → try_parse_wireline rest ≡ info_of h ∷ try_parse_wireline (drop (frame_size h) rest)
unfolding try_parse_wireline
parse_whole rest h e w =
    let after = drop (frame_size h) rest in
    let less = frame_after_shrinks h rest w in
    scan_header (length rest) rest (omega arith)
    ∙ ap (λ r. scan_frame r rest (λ after. scan (length rest) after)) e
    ∙ scan_frame_whole h rest _ w
    ∙ ap (λ l. info_of h ∷ l)
        (scan_fuel (length rest) (suc (length after)) after less (omega arith))

abbrev pub frame_info : Frame → WirelineInfo
frame_info f = record {
  msg_type = type_name f.msg_type;
  seq = f.seq;
  length = length f.payload;
  flags = f.flags;
}

module _ (crypto : Crypto) where
  pop_frame_info :
      (b : FrameBuffer) (h : Header) (f : Frame)
      → decode_header (slice 0 19 b.buf) ≡ ok h
      → pop_frame crypto b h ≡ ok (some f)
      → frame_info f ≡ info_of h
  unfolding pop_frame
  pop_frame_info b h f e q =
      let (g, r, s) = bind-eq-ok (decode_frame crypto _ _ _ b.secret) _ q in
      let a = (decode_frame-Assembles crypto _ _ _ b.secret g r).0 in
      let g_is_f : g ≡ f = ground (arith, s) in
      ap frame_info (sym g_is_f ∙ a.result)
      ∙ (λ i. record {
        msg_type = type_name a.header.msg_type;
        seq = a.header.seq;
        length = a.measured i;
        flags = a.header.flags;
      })
      ∙ ap info_of (ok-injective (sym a.parsed ∙ e))

  -- The frames that a buffer without a key yields, and what the scan reports beyond them.
  abbrev Sees : FrameBuffer → Type 0
  Sees b =
      (beyond : List WirelineInfo) × (try_parse_wireline b.buf
        ≡ map frame_info (drain crypto b).frames ++ beyond)
      × ((drain crypto b).end ≡ finished → beyond ≡ [])

  Sees-of_none :
      (b : FrameBuffer) → pop crypto b ≡ (b, ok none) → try_parse_wireline b.buf ≡ [] → Sees b
  Sees-of_none b e n = rw (drain_of_none crypto b b e) ([], n, λ _. refl)

  Sees-of_raise : (b b' : FrameBuffer) (x : Exn) → pop crypto b ≡ (b', raise x) → Sees b
  Sees-of_raise b b' x e =
      rw (drain_of_raise crypto b b' x e)
        (try_parse_wireline b.buf, refl, λ p. absurd (ground (arith, p)))

  Sees-of_some :
      (b b' : FrameBuffer) (f : Frame)
      → pop crypto b ≡ (b', ok (some f))
      → try_parse_wireline b.buf ≡ frame_info f ∷ try_parse_wireline b'.buf
      → Sees b'
      → Sees b
  Sees-of_some b b' f e n (beyond, q, k) =
      rw (drain_of_some crypto b b' f e) (beyond, n ∙ ap (λ l. frame_info f ∷ l) q, k)

  parse_none : (b : FrameBuffer) → pop crypto b ≡ (b, ok none) → try_parse_wireline b.buf ≡ []
  parse_none b e = elim (pop_view crypto b) [
    | short l q ↦ parse_short b.buf l
    | refused x l r q ↦ parse_refused b.buf x l r
    | part h l r p q ↦ parse_part b.buf h l r p
    | whole h r p q ↦ absurd (pop_frame-ne-none crypto b h (ap (λ o. o.1) (sym q ∙ e)))
  ]

  parse_some :
      (b b' : FrameBuffer) (f : Frame)
      → pop crypto b ≡ (b', ok (some f))
      → try_parse_wireline b.buf ≡ frame_info f ∷ try_parse_wireline b'.buf
  parse_some b b' f e = elim (pop_view crypto b) [
    | short l q ↦ absurd (ground arith)
    | refused x l r q ↦ absurd (ground arith)
    | part h l r p q ↦ absurd (ground arith)
    | whole h r p q ↦
        let v = sym q ∙ e in
        parse_whole b.buf h r p
        ∙ ap (λ i. i ∷ try_parse_wireline (drop (frame_size h) b.buf))
            (sym (pop_frame_info b h f r (ap (λ o. o.1) v)))
        ∙ ap (λ c. frame_info f ∷ try_parse_wireline (FrameBuffer.buf c)) (ap (λ o. o.0) v)
  ]

  -- `try_parse_wireline` reports the header of each frame that `FrameBuffer` yields from the same
  -- bytes, with or without a key, in order, and more than these only if the buffer raises an
  -- error.
  pub try_parse_wireline-drain :
      (b : FrameBuffer)
      → (beyond : List WirelineInfo) × (try_parse_wireline b.buf
          ≡ map frame_info (drain crypto b).frames ++ beyond)
        × ((drain crypto b).end ≡ finished → beyond ≡ [])
  try_parse_wireline-drain b =
      drain_induction crypto Sees (λ c e. Sees-of_none c e (parse_none c e)) Sees-of_raise
        (λ c c' f e ih. Sees-of_some c c' f e (parse_some c c' f e) ih) (suc (length b.buf)) b
        (omega arith)
