-- ===== src/Sniff/Flows.antt =====
-- src/wireline/sniff/dissect.py: the messages of each direction of a connection, put together again
-- from the payloads of its packets; and the output of the analyser.
pub mod Directions
pub mod Recovered
mod Tests
use wireline.Base.{
  ◌+◌, if◌then◌else◌, ℕ, Option, none, some, List, [], ◌∷◌, ◌++◌, Bool, true, false, ◌||◌,
}
use wireline.Base.Dict.{lookup, insert}
use wireline.Base.Bytes.{Bytes}
use wireline.Base.Text.{Text, codes, str_ℕ}
use wireline.Codec.{Crypto, Frame}
use wireline.Framing.{FrameBuffer, Drained, finished, stuck, raised, new_buffer, feed, drain}
use wireline.Sniff.Rows.{Row, WirelineInfo, join}

-- `buffers` and `frames`
pub record Reassembly : Type 0 where
  pub buffers : List (Text × FrameBuffer)
  pub frames : List (Text × List Frame)

abbrev pub new_reassembly : Reassembly
new_reassembly = record { buffers = []; frames = [] }

-- `not xs`
abbrev pub is_empty {ℓ} : {A : Type ℓ} → List A → Bool
is_empty [] = true
is_empty (x ∷ xs) = false

unfoldable pub flow_key : {T : Type 0} → Row T → Text
unfolding codes str_ℕ
flow_key row =
    row.l3_src
    ++ (codes ":"
        ++ (str_ℕ row.l4_sport
            ++ (codes " -> " ++ (row.l3_dst ++ (codes ":" ++ str_ℕ row.l4_dport)))))

-- `buffers.setdefault(key, FrameBuffer(None))`
abbrev pub buffer_or_new : Option FrameBuffer → FrameBuffer
buffer_or_new none = new_buffer none
buffer_or_new (some b) = b

-- `frames.setdefault(key, [])`, and `frames.get(key, [])`
abbrev pub frames_or_none : Option (List Frame) → List Frame
frames_or_none none = []
frames_or_none (some fs) = fs

-- The buffer of a direction after the frames in it were taken. All that `drain` raises is a
-- `ProtocolError`, after which a new buffer takes its place.
unfoldable pub kept_buffer : Drained → FrameBuffer
kept_buffer d = elim d.end [ finished ↦ d.buffer | stuck ↦ d.buffer | raised e ↦ new_buffer none ]

module _ (crypto : Crypto) where
  -- What `drain` yields before it raises is in the list by then.
  unfoldable pub take_payload : Text → Bytes → Reassembly → Reassembly
  unfolding kept_buffer insert
  take_payload key payload s =
      let d = drain crypto (feed (buffer_or_new (lookup key s.buffers)) payload) in
      record {
        buffers = insert key (kept_buffer d) s.buffers;
        frames = insert key (frames_or_none (lookup key s.frames) ++ d.frames) s.frames;
      }

module _ (crypto : Crypto) {T : Type 0} where
  -- One turn of the loop.
  unfoldable pub reassemble_row : Row T → Reassembly → Reassembly
  unfolding take_payload
  reassemble_row row s =
      if is_empty row.payload || is_empty row.l4_proto
      then s
      else take_payload crypto (flow_key row) row.payload s

  unfoldable pub reassemble_from : List (Row T) → Reassembly → Reassembly
  unfolding reassemble_row
  reassemble_from [] s = s
  reassemble_from (row ∷ rows) s = reassemble_from rows (reassemble_row row s)

  unfoldable pub reassemble_flows : List (Row T) → List (Text × List Frame)
  unfolding reassemble_from
  reassemble_flows rows = (reassemble_from rows new_reassembly).frames

-- `counts.get(name, 0)`
abbrev pub count_or_zero : Option ℕ → ℕ
count_or_zero none = 0
count_or_zero (some n) = n

unfoldable pub count_infos : List WirelineInfo → List (Text × ℕ) → List (Text × ℕ)
unfolding insert
count_infos [] counts = counts
count_infos (info ∷ infos) counts =
    count_infos infos
      (insert info.msg_type (count_or_zero (lookup info.msg_type counts) + 1) counts)

module _ {T : Type 0} where
  unfoldable pub summarise_from : List (Row T) → List (Text × ℕ) → List (Text × ℕ)
  unfolding count_infos
  summarise_from [] counts = counts
  summarise_from (row ∷ rows) counts = summarise_from rows (count_infos row.l7 counts)

  unfoldable pub summarise : List (Row T) → List (Text × ℕ)
  unfolding summarise_from
  summarise rows = summarise_from rows []
