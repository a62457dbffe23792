-- ===== src/Raft/Replication/Committed.antt =====
-- The committed part of a log under the loop of `AppendEntries`.
use mimori.Prelude.{
  Bool, List, [], ap, arith, drop, get_elem?, get_elem?-append_left, length, length-append, ltb,
  refl, take, take-append-drop, true, ℕ, ◌+◌, ◌-◌, ◌<◌, ◌||◌, ◌∙◌, ◌∷◌, ◌≡◌, ◌≤◌,
}
use mimori.Raft.Init.{new}
use mimori.Raft.Invariant.{length-take_le}
use mimori.Raft.Replication.{append_loop, append_one, same_term_at}
use mimori.Raft.State.{LogEntry}

-- An entry at a committed index has the term that the log has there.
abbrev pub agrees : (base commit : ℕ) → List LogEntry → LogEntry → Bool
agrees base commit log e =
    ltb commit e.index || ltb e.index base || same_term_at log (e.index - base) e.term

abbrev pub Agree : (base commit : ℕ) → List LogEntry → List LogEntry → Type 0
Agree base commit log [] = Unit {0}
Agree base commit log (e ∷ es) = (agrees base commit log e ≡ true) × Agree base commit log es

-- Two logs with the same committed part.
abbrev pub SameUpTo : (base commit : ℕ) → List LogEntry → List LogEntry → Type 0
SameUpTo base commit old new = (i : ℕ) → base + i ≤ commit → get_elem? new i ≡ get_elem? old i

Agree-SameUpTo :
    (base commit : ℕ) (old new es : List LogEntry)
    → SameUpTo base commit old new
    → Agree base commit old es
    → Agree base commit new es
unfolding same_term_at
Agree-SameUpTo base commit old new [] same h = tt
Agree-SameUpTo base commit old new (e ∷ es) same h =
    (ground (arith, h.0, same (e.index - base)), Agree-SameUpTo base commit old new es same h.1)

append_one-SameUpTo :
    (base commit : ℕ) (e : LogEntry) (log : List LogEntry)
    → commit < base + length log
    → agrees base commit log e ≡ true
    → SameUpTo base commit log (append_one base e log)
      × (commit < base + length (append_one base e log))
unfolding append_one
append_one-SameUpTo base commit e log inside h =
    let offset = e.index - base in
    (
      λ i le. ground (
        arith,
        get_elem?-append_left (take offset log) (e ∷ []) i,
        get_elem?-append_left log (e ∷ []) i,
        get_elem?-append_left (take offset log) (drop offset log) i,
        ap (λ l. get_elem? l i) (take-append-drop offset log),
        length-take_le offset log,
      ),
      ground (
        arith,
        length-take_le offset log,
        length-append (take offset log) (e ∷ []),
        length-append log (e ∷ []),
      ),
    )

-- Entries that agree with the committed part of the log leave that part alone.
pub append_loop-SameUpTo :
    (base commit : ℕ) (es log : List LogEntry)
    → commit < base + length log
    → Agree base commit log es
    → SameUpTo base commit log (append_loop base es log)
      × (commit < base + length (append_loop base es log))
unfolding append_loop
append_loop-SameUpTo base commit [] log inside h = (λ i le. refl, inside)
append_loop-SameUpTo base commit (e ∷ es) log inside h =
    let log' = append_one base e log in
    let (same, inside') = append_one-SameUpTo base commit e log inside h.0 in
    let (rest, end) =
      append_loop-SameUpTo base commit es log' inside'
        (Agree-SameUpTo base commit log log' es same h.1) in
    (λ i le. rest i le ∙ same i le, end)
