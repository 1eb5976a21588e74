-- ===== src/Udp/Window/History.antt =====
-- `DedupWindow` of src/wireline/transport/udp.py against the history of its puts.
use wireline.Base.{
  ℕ, zero, suc, ◌+◌, ◌-◌, ◌≤◌, ◌<◌, ◌≡◌, refl, sym, ap, ◌∙◌, ◌≢◌, inl, inr, List, [], ◌∷◌, ◌++◌,
  arith, ltb, ◌==◌, ltb→lt, ltb_false→le, ==_iff, ne→==_false, Bool-cases, length, drop,
  length-append, drop-append_le, drop_all,
}
use wireline.Base.Bytes.{Bytes}
use mathlib.Core.Path.{subst}
use wireline.Udp.Window.{DedupWindow, Entries, new_window, remove, store, evict, put}

-- The last `n` items of a list.
abbrev pub last {ℓ} : {A : Type ℓ} → ℕ → List A → List A
last n es = drop (length es - n) es

module _ {ℓ} {A : Type ℓ} where
  last_all : (n : ℕ) (es : List A) → length es ≤ n → last n es ≡ es
  last_all n es h = let e : length es - n ≡ 0 = omega arith in ap (λ k. drop k es) e

  last_cons : (n : ℕ) (x : A) (es : List A) → n ≤ length es → last n (x ∷ es) ≡ last n es
  last_cons n x es h =
      let e : suc (length es) - n ≡ suc (length es - n) = omega arith in ap (λ k. drop k (x ∷ es)) e

  pub last_snoc : (n : ℕ) (x : A) (es : List A) → last (suc n) (es ++ x ∷ []) ≡ last n es ++ x ∷ []
  last_snoc n x es =
      let e : length (es ++ x ∷ []) - suc n ≡ length es - n =
        omega (arith, length-append es (x ∷ [])) in
      ap (λ k. drop k (es ++ x ∷ [])) e ∙ drop-append_le (length es - n) es (x ∷ []) (omega arith)

  last_zero : (es : List A) → last 0 es ≡ []
  last_zero es = drop_all (length es - 0) es (omega arith)

pub evict-last : (size : ℕ) (es : Entries) → evict size es ≡ last size es
unfolding evict
evict-last size [] = sym (last_all size [] (omega arith))
evict-last size (e ∷ rest) = elim (Bool-cases (ltb size (suc (length rest)))) [
  | inl more ↦
      rw more (evict-last size rest ∙ sym (last_cons size e rest (omega (arith, ltb→lt _ _ more))))
  | inr fits ↦ rw fits (sym (last_all size (e ∷ rest) (ltb_false→le _ _ fits)))
]

abbrev Absent : ℕ → Entries → Type 0
Absent k [] = Unit
Absent k (e ∷ rest) = (e.0 ≢ k) × Absent k rest

abbrev Distinct : Entries → Type 0
Distinct [] = Unit
Distinct (e ∷ rest) = Absent e.0 rest × Distinct rest

remove-Absent : (k : ℕ) (es : Entries) → Absent k es → remove k es ≡ es
unfolding remove
remove-Absent k [] a = refl
remove-Absent k ((j, r) ∷ rest) a =
    rw (ne→==_false j k a.0) (ap (λ l. (j, r) ∷ l) (remove-Absent k rest a.1))

-- A key is removed at most once from distinct ones.
length-remove : (k : ℕ) (es : Entries) → Distinct es → length es ≤ length (remove k es) + 1
unfolding remove
length-remove k [] d = omega arith
length-remove k ((j, r) ∷ rest) d = elim (Bool-cases (j == k)) [
  | inl e ↦
      let a : Absent k rest = subst (λ i. Absent i rest) ((==_iff j k).0 e) d.0 in
      rw (e, remove-Absent k rest a) (omega arith)
  | inr e ↦ rw e (omega (arith, length-remove k rest d.1))
]

-- Taking a key out of the newest items loses none of the newest ones that are left.
last-remove :
    (k m : ℕ) (es : Entries)
    → Distinct es
    → last m (remove k (last (suc m) es)) ≡ last m (remove k es)
last-remove k m [] d = ap (λ l. last m (remove k l)) (last_all (suc m) [] (omega arith))
last-remove k m ((j, r) ∷ rest) d = elim (Bool-cases (ltb m (length rest))) [
  | inl more ↦
      ap (λ l. last m (remove k l)) (last_cons (suc m) (j, r) rest (ltb→lt _ _ more))
      ∙ last-remove k m rest d.1
      ∙ kept (ltb→lt _ _ more)
  | inr few ↦
      ap (λ l. last m (remove k l))
        (last_all (suc m) ((j, r) ∷ rest) (omega (arith, ltb_false→le _ _ few)))
]
  where
    kept : m < length rest → last m (remove k rest) ≡ last m (remove k ((j, r) ∷ rest))
    kept h = elim (Bool-cases (j == k)) [
      | inl e ↦ unfold remove in rw e
      | inr e ↦
          unfold remove in
          rw e (sym (last_cons m (j, r) (remove k rest) (omega (arith, length-remove k rest d.1))))
    ]

last-store :
    (n k : ℕ) (reply : Bytes) (es : Entries)
    → Distinct es
    → last n (store k reply (last n es)) ≡ last n (store k reply es)
unfolding store
last-store zero k reply es d =
    last_zero (store k reply (last 0 es)) ∙ sym (last_zero (store k reply es))
last-store (suc m) k reply es d =
    last_snoc m (k, reply) (remove k (last (suc m) es))
    ∙ ap (λ l. l ++ (k, reply) ∷ []) (last-remove k m es d)
    ∙ sym (last_snoc m (k, reply) (remove k es))

Absent-remove : (i k : ℕ) (es : Entries) → Absent i es → Absent i (remove k es)
unfolding remove
Absent-remove i k [] a = tt
Absent-remove i k ((j, r) ∷ rest) a = elim (Bool-cases (j == k)) [
  | inl e ↦ rw e (Absent-remove i k rest a.1)
  | inr e ↦ rw e (a.0, Absent-remove i k rest a.1)
]

Absent-remove_self : (k : ℕ) (es : Entries) → Absent k (remove k es)
unfolding remove
Absent-remove_self k [] = tt
Absent-remove_self k ((j, r) ∷ rest) = elim (Bool-cases (j == k)) [
  | inl e ↦ rw e (Absent-remove_self k rest)
  | inr e ↦ rw e (λ p. cc ((==_iff j k).1 p, e), Absent-remove_self k rest)
]

Distinct-remove : (k : ℕ) (es : Entries) → Distinct es → Distinct (remove k es)
unfolding remove
Distinct-remove k [] d = tt
Distinct-remove k ((j, r) ∷ rest) d = elim (Bool-cases (j == k)) [
  | inl e ↦ rw e (Distinct-remove k rest d.1)
  | inr e ↦ rw e (Absent-remove j k rest d.0, Distinct-remove k rest d.1)
]

Absent-snoc :
    (i k : ℕ) (reply : Bytes) (es : Entries)
    → Absent i es
    → k ≢ i
    → Absent i (es ++ (k, reply) ∷ [])
Absent-snoc i k reply [] a h = (h, tt)
Absent-snoc i k reply (e ∷ rest) a h = (a.0, Absent-snoc i k reply rest a.1 h)

Distinct-snoc :
    (k : ℕ) (reply : Bytes) (es : Entries)
    → Distinct es
    → Absent k es
    → Distinct (es ++ (k, reply) ∷ [])
Distinct-snoc k reply [] d a = (tt, tt)
Distinct-snoc k reply (e ∷ rest) d a =
    (Absent-snoc e.0 k reply rest d.0 (λ p. a.0 (sym p)), Distinct-snoc k reply rest d.1 a.1)

store-Distinct : (k : ℕ) (reply : Bytes) (es : Entries) → Distinct es → Distinct (store k reply es)
unfolding store
store-Distinct k reply es d =
    Distinct-snoc k reply (remove k es) (Distinct-remove k es d) (Absent-remove_self k es)

-- The puts one after the other, into a window and into a dictionary that forgets nothing.
unfoldable pub put_all : List (ℕ × Bytes) → DedupWindow → DedupWindow
put_all [] w = w
put_all ((k, reply) ∷ ps) w = put_all ps (put k reply w)

unfoldable pub store_all : List (ℕ × Bytes) → Entries → Entries
store_all [] es = es
store_all ((k, reply) ∷ ps) es = store_all ps (store k reply es)

put_all-last :
    (size : ℕ) (ps : List (ℕ × Bytes)) (w : DedupWindow) (es : Entries)
    → Distinct es
    → w ≡ record { size = size; entries = last size es }
    → put_all ps w ≡ record { size = size; entries = last size (store_all ps es) }
unfolding put_all store_all
put_all-last size [] w es d e = e
put_all-last size ((k, reply) ∷ ps) w es d e =
    put_all-last size ps (put k reply w) (store k reply es) (store-Distinct k reply es d) (
      ap (put k reply) e
      ∙ unfold put in
        ap (λ l. record { size = size; entries = l })
          (evict-last size (store k reply (last size es)) ∙ last-store size k reply es d))

-- After any puts a window holds the newest `size` entries of a dictionary that was given the same
-- puts and forgets nothing, in the same order: a number that was put again counts as new.
pub window_of_history :
    (size : ℕ) (ps : List (ℕ × Bytes))
    → put_all ps (new_window size) ≡ record { size = size; entries = last size (store_all ps []) }
window_of_history size ps =
    put_all-last size ps (new_window size) [] tt
      (ap (λ l. record { size = size; entries = l }) (sym (last_all size [] (omega arith))))
