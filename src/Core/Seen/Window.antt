-- ===== src/Core/Seen/Window.antt =====
-- What a table of seen requests promises: it remembers when each request was last seen. With room
-- for all of them, the table answers any sequence of requests as that memory does.
use dl_dsr_rs.Base.{
  ℕ, suc, ◌+◌, ◌-◌, ◌≤◌, ◌≡◌, refl, sym, ap, ◌∙◌, inl, inr, Bool, not, Bool-cases, Option-cases,
  List, [], ◌∷◌, Option, none, some, is_some, pair_eq, ◌==◌, length, leb, arith, if◌then◌else◌,
}
use dl_dsr_rs.HashMap.{HashMap, get, insert, contains_key}
use dl_dsr_rs.HashMap.Laws.{get-insert}
use dl_dsr_rs.HashMap.Keys.{HasDistinctKeys, get-filter}
use dl_dsr_rs.Core.Seen.{
  RequestKey, SeenRequests, empty_seen, prune, len, enforce_max_entries, mark_if_new,
}
use dl_dsr_rs.Core.Seen.Duplicates.{mark_if_new-HasDistinctKeys, len-prune-le}

-- A request and the time at which it comes.
pub record Arrival : Type 0 where
  pub key : RequestKey
  pub now : ℕ

-- When each request was last seen.
abbrev pub Memory : Type 0
Memory = RequestKey → Option ℕ

abbrev pub recall : Memory → RequestKey → ℕ → Memory
recall f k now j = if k == j then some now else f j

-- What is still within the time to live.
abbrev pub recent : ℕ → ℕ → Option ℕ → Option ℕ
recent ttl now none = none
recent ttl now (some t) = if leb (now - t) ttl then some t else none

-- The abstract answers: new is what was not seen within the time to live.
pub answers : ℕ → List Arrival → Memory → List Bool
answers ttl [] f = []
answers ttl (a ∷ rest) f =
    not (is_some (recent ttl a.now (f a.key))) ∷ answers ttl rest (recall f a.key a.now)

-- The answers of the table.
unfoldable pub verdicts : ℕ → ℕ → List Arrival → SeenRequests → List Bool
verdicts ttl max_entries [] s = []
verdicts ttl max_entries (a ∷ rest) s =
    let (t, is_new) = mark_if_new s (a.key).0 (a.key).1 a.now ttl max_entries in
    is_new ∷ verdicts ttl max_entries rest t

-- The requests come in the order of their times, from `now` on.
abbrev pub IsOrdered : ℕ → List Arrival → Type 0
IsOrdered now [] = Unit
IsOrdered now (a ∷ rest) = (now ≤ a.now) × IsOrdered a.now rest

-- At `now` the table and the memory show the same.
abbrev Agrees : ℕ → ℕ → SeenRequests → Memory → Type 0
Agrees ttl now s f = (k : RequestKey) → recent ttl now (get k s.seen) ≡ recent ttl now (f k)

recent_later :
    (ttl now later : ℕ) (o : Option ℕ)
    → now ≤ later
    → recent ttl later (recent ttl now o) ≡ recent ttl later o
recent_later ttl now later none h = refl
recent_later ttl now later (some t) h = ground arith

get-prune-recent :
    (s : SeenRequests) (now ttl : ℕ) (k : RequestKey)
    → HasDistinctKeys s.seen
    → get k (prune s now ttl).seen ≡ recent ttl now (get k s.seen)
unfolding prune
get-prune-recent s now ttl k h =
    get-filter (λ e. leb (now - e.1) ttl) k s.seen h ∙ elim (Option-cases (get k s.seen)) [
      | inl g ↦ ground (arith, g)
      | inr (t, g) ↦ ground (arith, g)
    ]

length-insert-le :
    (k : RequestKey) (v : ℕ) (m : HashMap RequestKey ℕ) → length (insert k v m) ≤ suc (length m)
unfolding insert
length-insert-le k v [] = omega arith
length-insert-le k v ((j, w) ∷ m) = ground (arith, length-insert-le k v m)

-- With room, nothing is dropped.
mark_if_new_room :
    (s : SeenRequests) (k : RequestKey) (now ttl max_entries : ℕ)
    → suc (len s) ≤ max_entries
    → ((mark_if_new s k.0 k.1 now ttl max_entries).0.seen ≡ insert k now (prune s now ttl).seen)
      × ((mark_if_new s k.0 k.1 now ttl max_entries).1
          ≡ not (contains_key k (prune s now ttl).seen))
unfolding mark_if_new enforce_max_entries
mark_if_new_room s k now ttl max_entries room =
    let fewer = len-prune-le s now ttl in
    let one_more = length-insert-le k now (prune s now ttl).seen in ground (arith, fewer, one_more)

-- What agrees at a time agrees later.
Agrees-later :
    (ttl now later : ℕ) (s : SeenRequests) (f : Memory)
    → now ≤ later
    → Agrees ttl now s f
    → Agrees ttl later s f
Agrees-later ttl now later s f h agree k =
    sym (recent_later ttl now later (get k s.seen) h)
    ∙ ap (recent ttl later) (agree k)
    ∙ recent_later ttl now later (f k) h

mark_if_new-Agrees :
    (s : SeenRequests) (f : Memory) (k : RequestKey) (now ttl max_entries : ℕ)
    → HasDistinctKeys s.seen
    → suc (len s) ≤ max_entries
    → Agrees ttl now s f
    → Agrees ttl now (mark_if_new s k.0 k.1 now ttl max_entries).0 (recall f k now)
mark_if_new-Agrees s f k now ttl max_entries own room agree j =
    let (kept, _) = mark_if_new_room s k now ttl max_entries room in
    let same = get-prune-recent s now ttl j own in
    ap (λ m. recent ttl now (get j m)) kept
    ∙ ap (recent ttl now) (get-insert k j now (prune s now ttl).seen)
    ∙ elim (Bool-cases (k == j)) [
      | inl e ↦ ground (arith, e)
      | inr e ↦
          let twice = recent_later ttl now now (get j s.seen) (omega arith) in
          ground (arith, e, same, twice, agree j)
    ]

-- From any table and memory that show the same, with room for all that comes.
pub verdicts_refine :
    (ttl max_entries now : ℕ) (arrivals : List Arrival) (s : SeenRequests) (f : Memory)
    → HasDistinctKeys s.seen
    → ((k : RequestKey) → recent ttl now (get k s.seen) ≡ recent ttl now (f k))
    → IsOrdered now arrivals
    → len s + length arrivals ≤ max_entries
    → verdicts ttl max_entries arrivals s ≡ answers ttl arrivals f
unfolding verdicts answers
verdicts_refine ttl max_entries now [] s f own agree ordered room = refl
verdicts_refine ttl max_entries now (a ∷ rest) s f own agree ordered room =
    let lifted = Agrees-later ttl now a.now s f ordered.0 agree in
    let more : suc (len s) ≤ max_entries = omega arith in
    let (kept, verdict) = mark_if_new_room s a.key a.now ttl max_entries more in
    let t = (mark_if_new s (a.key).0 (a.key).1 a.now ttl max_entries).0 in
    let size : len t ≤ suc (len s) =
      (let fewer = len-prune-le s a.now ttl in
        let one_more = length-insert-le a.key a.now (prune s a.now ttl).seen in
        ground (arith, kept)) in
    let shown = get-prune-recent s a.now ttl a.key own ∙ lifted a.key in
    let next =
      verdicts_refine ttl max_entries a.now rest t (recall f a.key a.now)
        (mark_if_new-HasDistinctKeys s (a.key).0 (a.key).1 a.now ttl max_entries own)
        (mark_if_new-Agrees s f a.key a.now ttl max_entries own more lifted) ordered.1
        (omega arith) in
    ground (arith, verdict, shown, next)

-- Where requests come in the order of their times, and the bound is no less than their number, an
-- empty table reports each as new exactly where the memory of when each was last seen has it not
-- at all or longer ago than the time to live.
pub verdicts_new_refine :
    (ttl max_entries now : ℕ) (arrivals : List Arrival)
    → IsOrdered now arrivals
    → length arrivals ≤ max_entries
    → verdicts ttl max_entries arrivals empty_seen ≡ answers ttl arrivals (λ _. none)
unfolding get
verdicts_new_refine ttl max_entries now arrivals ordered room =
    verdicts_refine ttl max_entries now arrivals empty_seen (λ _. none) tt (λ k. refl) ordered
      (omega arith)
