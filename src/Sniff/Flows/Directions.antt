-- ===== src/Sniff/Flows/Directions.antt =====
-- `reassemble_flows` of src/wireline/sniff/dissect.py: each direction on its own.
use wireline.Base.Text.{Text}
use wireline.Base.Bytes.{Bytes}
use wireline.Base.{
  ◌∙◌, append_assoc, eqb_sound, ap, refl, sym, inl, inr, none, append-nil, Bool-cases, ◌≡◌, Bool,
  true, false, not, ◌&&◌, ◌||◌, List, [], ◌∷◌, ◌++◌, if◌then◌else◌, eqb,
}
use wireline.Base.Dict.{lookup, lookup-insert_self, lookup-insert_other}
use wireline.Codec.{Crypto, Frame}
use wireline.Framing.{Drained, End, finished, stuck, raised, FrameBuffer, feed, drain, new_buffer}
use wireline.Sniff.Rows.{Row}
use wireline.Sniff.Flows.{
  take_payload, Reassembly, is_empty, flow_key, buffer_or_new, frames_or_none, kept_buffer,
  reassemble_row, reassemble_from, reassemble_flows, new_reassembly,
}

module _ {T : Type 0} where
  -- The row carries bytes in the direction that the text names.
  abbrev pub carries : Text → Row T → Bool
  carries key row = not (is_empty row.payload || is_empty row.l4_proto) && eqb (flow_key row) key

  -- The payloads of one direction, in the order of the capture.
  unfoldable pub payloads_of : Text → List (Row T) → List Bytes
  payloads_of key [] = []
  payloads_of key (row ∷ rows) =
      let rest = payloads_of key rows in if carries key row then row.payload ∷ rest else rest

-- The buffer of a reader of one direction is what the loop of `drain` has left, or a new one after an
-- error.
unfoldable pub buffer_after : End → FrameBuffer → FrameBuffer
buffer_after (raised e) b = new_buffer none
buffer_after _ b = b

kept : (d : Drained) → kept_buffer d ≡ buffer_after d.end d.buffer
unfolding kept_buffer buffer_after
kept d =
    elim d.end
      as (λ e.
        elim e [ finished ↦ d.buffer | stuck ↦ d.buffer | raised x ↦ new_buffer none ]
        ≡ buffer_after e d.buffer) [ finished ↦ refl | stuck ↦ refl | raised x ↦ refl ]

module _ (crypto : Crypto) where
  -- The frames that this reader finds
  unfoldable pub follow : FrameBuffer → List Bytes → List Frame
  unfolding buffer_after
  follow b [] = []
  follow b (c ∷ cs) =
      let d = drain crypto (feed b c) in d.frames ++ follow (buffer_after d.end d.buffer) cs

  abbrev pub frames_at : Text → Reassembly → List Frame
  frames_at key s = frames_or_none (lookup key s.frames)

  abbrev pub buffer_at : Text → Reassembly → FrameBuffer
  buffer_at key s = buffer_or_new (lookup key s.buffers)

  -- What a payload changes in its own direction, and in another one.
  take_payload_self :
      (key : Text) (payload : Bytes) (s : Reassembly)
      → (frames_at key (take_payload crypto key payload s)
          ≡ frames_at key s ++ (drain crypto (feed (buffer_at key s) payload)).frames)
        × (buffer_at key (take_payload crypto key payload s)
            ≡ buffer_after
                (drain crypto (feed (buffer_at key s) payload)).end
                (drain crypto (feed (buffer_at key s) payload)).buffer)
  unfolding take_payload
  take_payload_self key payload s = (
    ap frames_or_none (lookup-insert_self key _ s.frames),
    ap buffer_or_new (lookup-insert_self key _ s.buffers)
        ∙ kept (drain crypto (feed (buffer_at key s) payload)),
  )

  take_payload_other :
      (key other : Text) (payload : Bytes) (s : Reassembly)
      → eqb other key ≡ false
      → (frames_at key (take_payload crypto other payload s) ≡ frames_at key s)
        × (buffer_at key (take_payload crypto other payload s) ≡ buffer_at key s)
  unfolding take_payload
  take_payload_other key other payload s h = (
    ap frames_or_none (lookup-insert_other other key _ s.frames h),
    ap buffer_or_new (lookup-insert_other other key _ s.buffers h),
  )

  module _ {T : Type 0} where
    row_skipped :
        (row : Row T) (s : Reassembly)
        → (is_empty row.payload || is_empty row.l4_proto) ≡ true
        → reassemble_row crypto row s ≡ s
    unfolding reassemble_row
    row_skipped row s h = rw h

    row_taken :
        (row : Row T) (s : Reassembly)
        → (is_empty row.payload || is_empty row.l4_proto) ≡ false
        → reassemble_row crypto row s ≡ take_payload crypto (flow_key row) row.payload s
    unfolding reassemble_row
    row_taken row s h = rw h

    payloads_skip :
        (key : Text) (row : Row T) (rows : List (Row T))
        → carries key row ≡ false
        → payloads_of key (row ∷ rows) ≡ payloads_of key rows
    unfolding payloads_of
    payloads_skip key row rows h = rw h

    payloads_take :
        (key : Text) (row : Row T) (rows : List (Row T))
        → carries key row ≡ true
        → payloads_of key (row ∷ rows) ≡ row.payload ∷ payloads_of key rows
    unfolding payloads_of
    payloads_take key row rows h = rw h

    -- The frames of a direction so far, and those that are still to come.
    abbrev Continues : Text → List (Row T) → Reassembly → Type 0
    Continues key rows s =
        frames_at key (reassemble_from crypto rows s)
        ≡ frames_at key s ++ follow (buffer_at key s) (payloads_of key rows)

    -- A row that is not of the direction changes neither side.
    Continues-past :
        (key : Text) (row : Row T) (rows : List (Row T)) (s s' : Reassembly)
        → carries key row ≡ false
        → reassemble_row crypto row s ≡ s'
        → (frames_at key s' ≡ frames_at key s) × (buffer_at key s' ≡ buffer_at key s)
        → Continues key rows s'
        → Continues key (row ∷ rows) s
    unfolding reassemble_from
    Continues-past key row rows s s' c r (f, b) ih =
        ap (λ t. frames_at key (reassemble_from crypto rows t)) r
        ∙ ih
        ∙ rw (f, b, payloads_skip key row rows c) refl

    Continues-with :
        (key : Text) (row : Row T) (rows : List (Row T)) (s : Reassembly)
        → carries key row ≡ true
        → reassemble_row crypto row s ≡ take_payload crypto key row.payload s
        → Continues key rows (take_payload crypto key row.payload s)
        → Continues key (row ∷ rows) s
    unfolding reassemble_from follow
    Continues-with key row rows s c r ih =
        let (f, b) = take_payload_self key row.payload s in
        let d = drain crypto (feed (buffer_at key s) row.payload) in
        ap (λ t. frames_at key (reassemble_from crypto rows t)) r
        ∙ ih
        ∙ ap
            (λ fs.
              fs
              ++ follow (buffer_at key (take_payload crypto key row.payload s))
                  (payloads_of key rows))
            f
        ∙ append_assoc (frames_at key s) d.frames _
        ∙ ap (λ c. frames_at key s ++ (d.frames ++ follow c (payloads_of key rows))) b
        ∙ ap (λ ps. frames_at key s ++ follow (buffer_at key s) ps)
            (sym (payloads_take key row rows c))

    reassemble_from-Continues :
        (key : Text) (rows : List (Row T)) (s : Reassembly) → Continues key rows s
    reassemble_from-Continues key [] s =
        unfold reassemble_from payloads_of follow in sym (append-nil _)
    reassemble_from-Continues key (row ∷ rows) s =
        elim (Bool-cases (is_empty row.payload || is_empty row.l4_proto)) [
          | inl skipped ↦
              Continues-past key row rows s s (rw skipped refl) (row_skipped row s skipped)
                (refl, refl) (reassemble_from-Continues key rows s)
          | inr taken ↦ elim (Bool-cases (eqb (flow_key row) key)) [
            | inl same ↦
                Continues-with key row rows s (rw (taken, same) refl)
                  (row_taken row s taken
                    ∙ ap (λ k. take_payload crypto k row.payload s) (eqb_sound _ _ same))
                  (reassemble_from-Continues key rows (take_payload crypto key row.payload s))
            | inr differs ↦
                let s' = take_payload crypto (flow_key row) row.payload s in
                Continues-past key row rows s s' (rw (taken, differs) refl) (row_taken row s taken)
                  (take_payload_other key (flow_key row) row.payload s differs)
                  (reassemble_from-Continues key rows s')
          ]
        ]

    -- The frames of a direction in `reassemble_flows` are those that a reader of the payloads of
    -- this direction alone finds, which begins with a new buffer after an error: what other
    -- directions carry in between changes nothing.
    pub reassemble_flows-follow :
        (key : Text) (rows : List (Row T))
        → frames_or_none (lookup key (reassemble_flows crypto rows))
          ≡ follow (new_buffer none) (payloads_of key rows)
    unfolding reassemble_flows follow lookup
    reassemble_flows-follow key rows = reassemble_from-Continues key rows new_reassembly
