-- ===== src/Sniff/Flows/Recovered.antt =====
-- What `reassemble_flows` of src/wireline/sniff/dissect.py finds in a direction that carries frames,
-- and after an error.
use wireline.Errors.{Exn}
use wireline.Base.Text.{Text}
use wireline.Base.Bytes.{Bytes}
use wireline.Base.{◌≡◌, refl, sym, ap, ◌∙◌, none, List, [], ◌∷◌, ◌++◌, All}
use wireline.Base.Dict.{lookup}
use wireline.Codec.{Crypto, IsDigest, Frame}
use wireline.Codec.Encoding.{IsEncodable}
use wireline.Framing.{
  prepend, FrameBuffer, Drained, End, feed, drain, new_buffer, finished, stuck, raised,
}
use wireline.Framing.Chunks.{concat, receive, receive_turn}
use wireline.Framing.Encoded.{stream_of, receive_unkeyed}
use wireline.Sniff.Rows.{Row}
use wireline.Sniff.Flows.{frames_or_none, reassemble_flows}
use wireline.Sniff.Flows.Directions.{payloads_of, buffer_after, follow, reassemble_flows-follow}

buffer_after_finished : (d : Drained) → d.end ≡ finished → buffer_after d.end d.buffer ≡ d.buffer
unfolding buffer_after
buffer_after_finished d h = rw h

buffer_after_raised :
    (d : Drained) (x : Exn) → d.end ≡ raised x → buffer_after d.end d.buffer ≡ new_buffer none
unfolding buffer_after
buffer_after_raised d x h = rw h

receive_turn_finished :
    (e : End) (d rest : Drained) → (receive_turn e d rest).end ≡ finished → d.end ≡ e → e ≡ finished
unfolding receive_turn
receive_turn_finished finished d rest h q = refl
receive_turn_finished stuck d rest h q = sym q ∙ h
receive_turn_finished (raised x) d rest h q = sym q ∙ h

module _ (crypto : Crypto) where
  -- Without an error, a direction is read as any stream is.
  follow-receive :
      (b : FrameBuffer) (cs : List Bytes)
      → (receive crypto b cs).end ≡ finished
      → follow crypto b cs ≡ (receive crypto b cs).frames
  unfolding follow receive
  follow-receive b [] h = refl
  follow-receive b (c ∷ cs) h =
      let d = drain crypto (feed b c) in
      let ended = receive_turn_finished d.end d (receive crypto d.buffer cs) h refl in
      let whole : receive_turn d.end d (receive crypto d.buffer cs)
          ≡ prepend d.frames (receive crypto d.buffer cs) =
        unfold receive_turn in ap (λ e. receive_turn e d (receive crypto d.buffer cs)) ended in
      ap (λ k. d.frames ++ follow crypto k cs) (buffer_after_finished d ended)
      ∙ ap (λ fs. d.frames ++ fs) (follow-receive d.buffer cs (sym (ap Drained.end whole) ∙ h))
      ∙ sym (ap Drained.frames whole)

  module _ (digest : IsDigest crypto) (secret : Bytes) (fs : List Frame)
      (fit : All IsEncodable fs) where
    follow-stream_of :
        (cs : List Bytes)
        → concat cs ≡ stream_of crypto secret fs
        → follow crypto (new_buffer none) cs ≡ fs
    follow-stream_of cs e =
        let r = receive_unkeyed crypto secret digest fs cs fit e in
        follow-receive (new_buffer none) cs (ap Drained.end r) ∙ ap Drained.frames r

    module _ {T : Type 0} (key : Text) (rows : List (Row T)) where
      -- If the payloads of one direction of a capture, in order, are the encodings of frames
      -- within the limits, cut anywhere and with packets of other directions in between, then
      -- `reassemble_flows` finds exactly those frames in that direction, in order; a digest has 32
      -- bytes.
      pub reassemble_flows-stream_of :
          concat (payloads_of key rows) ≡ stream_of crypto secret fs
          → frames_or_none (lookup key (reassemble_flows crypto rows)) ≡ fs
      reassemble_flows-stream_of e =
          reassemble_flows-follow crypto key rows ∙ follow-stream_of (payloads_of key rows) e

      -- If the first payload of a direction makes its buffer raise an error, and the payloads
      -- after it are the encodings of frames within the limits, cut anywhere, then
      -- `reassemble_flows` finds in that direction the frames before the error and all of the
      -- later ones; a digest has 32 bytes.
      pub reassemble_flows_restarts :
          (bad : Bytes) (good : List Bytes) (x : Exn)
          → payloads_of key rows ≡ bad ∷ good
          → (drain crypto (feed (new_buffer none) bad)).end ≡ raised x
          → concat good ≡ stream_of crypto secret fs
          → frames_or_none (lookup key (reassemble_flows crypto rows))
            ≡ (drain crypto (feed (new_buffer none) bad)).frames ++ fs
      unfolding follow
      reassemble_flows_restarts bad good x p r e =
          let d = drain crypto (feed (new_buffer none) bad) in
          reassemble_flows-follow crypto key rows
          ∙ ap (follow crypto (new_buffer none)) p
          ∙ ap (λ b. d.frames ++ follow crypto b good) (buffer_after_raised d x r)
          ∙ ap (λ l. d.frames ++ l) (follow-stream_of good e)
