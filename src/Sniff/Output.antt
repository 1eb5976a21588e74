-- ===== src/Sniff/Output.antt =====
-- `format_rows` of src/wireline/sniff/dissect.py: one line for each row.
use wireline.Base.{ℕ, Bool, not, List, [], ◌∷◌, ◌++◌, ◌==◌, if◌then◌else◌}
use wireline.Base.Text.{Text, codes, str_ℕ}
use wireline.Sniff.Rows.{Row, WirelineInfo, join}
use wireline.Sniff.Flows.{is_empty}

-- `f"L2 {src} -> {dst}"`, and the same for L3
unfoldable pub address_part : Text → Text → Text → Text
address_part layer src dst = layer ++ (src ++ (codes " -> " ++ dst))

-- `f"L4 {proto} {sport} -> {dport}"`
unfoldable pub ports_part : Text → ℕ → ℕ → Text
ports_part proto sport dport =
    codes "L4 " ++ (proto ++ (codes " " ++ (str_ℕ sport ++ (codes " -> " ++ str_ℕ dport))))

unfoldable pub transport_part : {T : Type 0} → Row T → Text
unfolding ports_part
transport_part row =
    let ports = ports_part row.l4_proto row.l4_sport row.l4_dport in
    if not (is_empty row.l4_flags)
    then ports ++ (codes " [" ++ (row.l4_flags ++ codes "]"))
    else ports

unfoldable pub info_text : WirelineInfo → Text
info_text info =
    info.msg_type ++ (codes " seq=" ++ (str_ℕ info.seq ++ (codes " len=" ++ str_ℕ info.length)))

unfoldable pub info_texts : List WirelineInfo → List Text
unfolding info_text
info_texts [] = []
info_texts (info ∷ infos) = info_text info ∷ info_texts infos

-- `if test: parts.append(part)`, in front of the parts that follow
unfoldable pub part_if : Bool → Text → List Text → List Text
part_if test part parts = if test then part ∷ parts else parts

module _ {T : Type 0} (show : T → Text) where
  -- `show` is the format `.6f` of a timestamp.
  unfoldable pub row_parts : Row T → List Text
  unfolding part_if address_part transport_part info_texts
  row_parts row =
      show row.ts
      ∷ part_if (not (is_empty row.l2_src)) (address_part (codes "L2 ") row.l2_src row.l2_dst) (
          part_if (not (is_empty row.l3_src)) (address_part (codes "L3 ") row.l3_src row.l3_dst) (
            part_if (not (is_empty row.l4_proto)) (transport_part row) (
              part_if (not (row.payload_len == 0)) (codes "len " ++ str_ℕ row.payload_len) (
                part_if (not (is_empty row.l7))
                  (codes "L7 " ++ join (codes ", ") (info_texts row.l7))
                  (part_if (not (is_empty row.note)) (codes "(" ++ (row.note ++ codes ")")) [])))))

  unfoldable pub format_rows : List (Row T) → List Text
  unfolding row_parts
  format_rows [] = []
  format_rows (row ∷ rows) = join (codes "  ") (row_parts row) ∷ format_rows rows
