-- ===== src/Reputation/Snapshot/Laws.antt =====
-- The bisection finds what a walk over the entries finds.
use cpak.Base.{
  ℕ, zero, suc, ◌≤◌, ◌<◌, ◌≡◌, refl, sym, ap, ◌∙◌, ◌≢◌, inl, inr, Bool, true, false, ◌&&◌, Option,
  none, some, List, [], ◌∷◌, arith, if◌then◌else◌, ◌==◌, nat_eq, Bool-cases, all, length, ok, Text,
  text_beq, text_beq_iff, text_eq, all_mono, int_eq, not_true,
}
use mathlib.Core.Bool.{true≢false}
use cpak.Go.Search.{IsLeast, search-IsLeast}
use cpak.Go.Sort.{text_less}
use cpak.Go.Regexp.{match_string}
use cpak.Go.Time.{Instant}
use cpak.Reputation.{valid_publisher_id}
use cpak.Reputation.Snapshot.{
  Entry, Snapshot, nth, not_before, own_entry, answer, index_of, lookup, Signed, validate_entries,
  validate_signed,
}

text_less_irrefl : (a : Text) → text_less a a ≡ false
unfolding text_less
text_less_irrefl [] = refl
text_less_irrefl (c ∷ cs) = ground (arith, text_less_irrefl cs)

text_less_trans :
    (a b c : Text) → text_less a b ≡ true → text_less b c ≡ true → text_less a c ≡ true
unfolding text_less
text_less_trans [] [] c h k = cc
text_less_trans [] (y ∷ b) [] h k = cc
text_less_trans [] (y ∷ b) (z ∷ c) h k = refl
text_less_trans (x ∷ a) [] c h k = cc
text_less_trans (x ∷ a) (y ∷ b) [] h k = cc
text_less_trans (x ∷ a) (y ∷ b) (z ∷ c) h k = elim (Bool-cases ((x == y) && (y == z))) [
  | inl e ↦ ground (arith, text_less_trans a b c (ground arith) (ground arith))
  | inr e ↦ ground arith
]

-- Every entry stands before all that follow it.
unfoldable pub is_ascending : List Entry → Bool
is_ascending [] = true
is_ascending (e ∷ es) = all (λ x. text_less e.publisher_id x.publisher_id) es && is_ascending es

-- The first entry of the publisher.
unfoldable pub find_entry : Text → List Entry → Option Entry
find_entry id [] = none
find_entry id (e ∷ es) =
    let rest = find_entry id es in if e.publisher_id == id then some e else rest

-- Behind an entry that is not before the publisher, no other one is.
not_before-nth :
    (id : Text) (e : Entry) (es : List Entry) (k : ℕ)
    → all (λ x. text_less e.publisher_id x.publisher_id) es ≡ true
    → text_less e.publisher_id id ≡ false
    → not_before id (nth k es) ≡ true
unfolding all
not_before-nth id e [] k h b = refl
not_before-nth id e (x ∷ es) zero h b =
    let after = not_true (text_less x.publisher_id id) (λ t.
      true≢false (sym (text_less_trans e.publisher_id x.publisher_id id (ground arith) t) ∙ b)) in
    rw after refl
not_before-nth id e (x ∷ es) (suc k) h b = not_before-nth id e es k (ground arith) b

not_before_mono :
    (id : Text) (es : List Entry)
    → is_ascending es ≡ true
    → (a b : ℕ) → a ≤ b
    → not_before id (nth a es) ≡ true
    → not_before id (nth b es) ≡ true
unfolding is_ascending
not_before_mono id [] h a b l t = refl
not_before_mono id (e ∷ es) h zero zero l t = t
not_before_mono id (e ∷ es) h zero (suc b) l t =
    not_before-nth id e es b (ground arith) (ground arith)
not_before_mono id (e ∷ es) h (suc a) zero l t = absurd (omega arith)
not_before_mono id (e ∷ es) h (suc a) (suc b) l t =
    not_before_mono id es (ground arith) a b (omega arith) t

not_before_end :
    (id : Text) (es : List Entry) (k : ℕ) → length es ≤ k → not_before id (nth k es) ≡ true
not_before_end id [] k h = refl
not_before_end id (e ∷ es) zero h = absurd (omega arith)
not_before_end id (e ∷ es) (suc k) h = not_before_end id es k (omega arith)

-- No entry behind one that is past the publisher is the publisher's.
find_entry-past :
    (id : Text) (e : Entry) (es : List Entry)
    → all (λ x. text_less e.publisher_id x.publisher_id) es ≡ true
    → text_less id e.publisher_id ≡ true
    → find_entry id es ≡ none
unfolding all find_entry
find_entry-past id e [] h p = refl
find_entry-past id e (x ∷ es) h p =
    let past : text_less id x.publisher_id ≡ true =
      text_less_trans id e.publisher_id x.publisher_id p (ground arith) in
    let other : (x.publisher_id == id) ≡ false = not_true (x.publisher_id == id) (λ t.
      let same : x.publisher_id ≡ id = (text_beq_iff x.publisher_id id).0 t in
      true≢false (sym past ∙ (rw same (text_less_irrefl id)))) in
    rw other (find_entry-past id e es (ground arith) p)

text_less_total : (a b : Text) → text_less a b ≡ false → text_beq a b ≡ false → text_less b a ≡ true
unfolding text_less text_beq
text_less_total [] [] h k = cc
text_less_total [] (y ∷ b) h k = cc
text_less_total (x ∷ a) [] h k = refl
text_less_total (x ∷ a) (y ∷ b) h k = elim (Bool-cases (x == y)) [
  | inl e ↦ ground (arith, text_less_total a b (ground arith) (ground arith))
  | inr e ↦ ground arith
]

-- At an index that separates the entries before the publisher from the others stands the
-- publisher's entry, if there is one.
own_entry-find :
    (id : Text) (es : List Entry) (r : ℕ)
    → is_ascending es ≡ true
    → IsLeast (λ k. not_before id (nth k es)) r
    → own_entry id (nth r es) ≡ find_entry id es
unfolding is_ascending find_entry
own_entry-find id [] r h l = refl
own_entry-find id (e ∷ es) zero h l = elim (Bool-cases (e.publisher_id == id)) [
  | inl same ↦ rw same refl
  | inr other ↦
      let reached : text_less e.publisher_id id ≡ false =
        (let a = l.above 0 (omega arith) in ground (arith, a)) in
      rw
        (
          other,
          find_entry-past id e es (ground arith) (text_less_total e.publisher_id id reached other),
        )
        refl
]
own_entry-find id (e ∷ es) (suc r) h l =
    let before : text_less e.publisher_id id ≡ true =
      (let b = l.below 0 (omega arith) in ground (arith, b)) in
    let other : (e.publisher_id == id) ≡ false = not_true (e.publisher_id == id) (λ t.
      let same : e.publisher_id ≡ id = (text_beq_iff e.publisher_id id).0 t in
      true≢false (sym before ∙ (rw same (text_less_irrefl id)))) in
    rw other (
      own_entry-find id es r (ground arith) (record {
        below = λ k b. l.below (suc k) (omega (arith, b));
        above = λ k b. l.above (suc k) (omega (arith, b));
      }))

-- In a snapshot whose entries ascend, the lookup by bisection answers what a walk over the entries
-- would: the publisher's own entry, or that it is not listed.
pub lookup-find_entry :
    (s : Snapshot) (id : Text)
    → is_ascending s.entries ≡ true
    → lookup s id ≡ answer s id (find_entry id s.entries)
unfolding lookup index_of
lookup-find_entry s id h = ap (answer s id) (
    own_entry-find id s.entries (index_of id s.entries) h (
      search-IsLeast (λ k. not_before id (nth k s.entries)) (length s.entries) 0 (length s.entries)
        (not_before_mono id s.entries h) (omega arith) (omega arith)
        (λ k b. absurd (omega (arith, b))) (not_before_end id s.entries)))

nothing_is_nobody : valid_publisher_id [] ≡ false
unfolding valid_publisher_id match_string
nothing_is_nobody = refl

publisher_named : (id : Text) → valid_publisher_id id ≡ true → id ≢ []
publisher_named [] h e = absurd (true≢false (sym h ∙ nothing_is_nobody))
publisher_named (c ∷ cs) h e = cc

-- The entries behind a previous one that a signed document may hold ascend, and all follow it.
validate_entries-ascending :
    (previous : Text) (es : List Entry)
    → previous ≢ []
    → validate_entries previous es ≡ ok tt
    → (is_ascending es ≡ true) × (all (λ x. text_less previous x.publisher_id) es ≡ true)
unfolding validate_entries is_ascending all
validate_entries-ascending previous [] n h = (refl, refl)
validate_entries-ascending previous (e ∷ es) n h =
    let (rising, past) =
      validate_entries-ascending e.publisher_id es (publisher_named e.publisher_id (ground arith))
        (ground arith) in
    let next : text_less previous e.publisher_id ≡ true =
      ground (arith, text_beq_iff previous []) in
    let all_past =
      all_mono (λ x. text_less e.publisher_id x.publisher_id)
        (λ x. text_less previous x.publisher_id) es
        (λ x t. text_less_trans previous e.publisher_id x.publisher_id next t) past in
    (rw past rising, rw next all_past)

entries_of_start : (es : List Entry) → validate_entries [] es ≡ ok tt → is_ascending es ≡ true
unfolding validate_entries is_ascending
entries_of_start [] h = refl
entries_of_start (e ∷ es) h =
    let (rising, past) =
      validate_entries-ascending e.publisher_id es (publisher_named e.publisher_id (ground arith))
        (ground arith) in
    rw past rising

-- The entries of a signed document that passes its checks ascend strictly, so that each publisher
-- is listed at most once and the lookup may bisect.
pub validate_signed-ascending :
    (s : Signed) (issued expires : Instant)
    → validate_signed s ≡ ok (issued, expires)
    → (is_ascending s.entries ≡ true) × (issued < expires)
unfolding validate_signed
validate_signed-ascending s issued expires h =
    (ground (arith, entries_of_start s.entries (ground arith)), ground arith)
