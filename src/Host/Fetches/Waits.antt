-- ===== src/Host/Fetches/Waits.antt =====
-- When the loop that waits for a fetch ends, and with what.
use webcm.Common.{
  ℕ, ◌≡◌, ◌≢◌, refl, ◌∙◌, List, [], ◌∷◌, ◌++◌, All, true, false, ◌==◌, some, ok, ==→eq, Bool-cases,
  inl, inr, ◌⊎◌, arith,
}
use webcm.Host.Fetches.{FetchObject, Fetches, find, Completion, on_fetch_end, Waited, wait_done}

-- The object at the end of its fetch.
abbrev pub ended : Completion → FetchObject → FetchObject
ended c o = record o { fetch = c.fetch; done = true }

pub find-on_fetch_end :
    (uid : ℕ) (c : Completion) (o : FetchObject) (fs : Fetches)
    → find uid fs ≡ some o
    → c.uid ≡ uid
    → find uid (on_fetch_end c fs) ≡ some (ended c o)
unfolding find on_fetch_end
find-on_fetch_end uid c o [] e h = cc
find-on_fetch_end uid c o ((k, p) ∷ fs) e h = ground (arith, find-on_fetch_end uid c o fs)

pub find-on_fetch_end_other :
    (uid : ℕ) (c : Completion) (o : FetchObject) (fs : Fetches)
    → find uid fs ≡ some o
    → c.uid ≢ uid
    → find uid (on_fetch_end c fs) ≡ some o
unfolding find on_fetch_end
find-on_fetch_end_other uid c o [] e h = cc
find-on_fetch_end_other uid c o ((k, p) ∷ fs) e h =
    ground (arith, find-on_fetch_end_other uid c o fs)

pub wait_done_finished :
    (uid : ℕ) (fs : Fetches) (o : FetchObject) (cs : List Completion)
    → find uid fs ≡ some o
    → o.done ≡ true
    → wait_done uid fs cs ≡ ok (record { fetches = fs; fetch = o.fetch; later = cs })
unfolding wait_done
wait_done_finished uid fs o [] e h = rw (e, h)
wait_done_finished uid fs o (c ∷ cs) e h = rw (e, h)

wait_done_busy :
    (uid : ℕ) (fs : Fetches) (o : FetchObject) (c : Completion) (cs : List Completion)
    → find uid fs ≡ some o
    → o.done ≡ false
    → wait_done uid fs (c ∷ cs) ≡ wait_done uid (on_fetch_end c fs) cs
unfolding wait_done
wait_done_busy uid fs o c cs e busy = rw (e, busy)

-- The map after completions.
abbrev pub after_ends : List Completion → Fetches → Fetches
after_ends [] fs = fs
after_ends (c ∷ cs) fs = after_ends cs (on_fetch_end c fs)

-- The loop waits for the completion of its own fetch: those of others pass, in their order.
pub wait_done_arrives :
    (uid : ℕ) (fs : Fetches) (o : FetchObject) (others : List Completion) (c : Completion)
    (cs : List Completion)
    → find uid fs ≡ some o
    → o.done ≡ false
    → All (λ d. d.uid ≢ uid) others
    → c.uid ≡ uid
    → wait_done uid fs (others ++ (c ∷ cs))
      ≡ ok (record { fetches = after_ends (others ++ (c ∷ [])) fs; fetch = c.fetch; later = cs })
wait_done_arrives uid fs o [] c cs e busy v h =
    wait_done_busy uid fs o c cs e busy
    ∙ wait_done_finished uid (on_fetch_end c fs) (ended c o) cs (find-on_fetch_end uid c o fs e h)
        refl
wait_done_arrives uid fs o (d ∷ others) c cs e busy v h =
    wait_done_busy uid fs o d (others ++ (c ∷ cs)) e busy
    ∙ wait_done_arrives uid (on_fetch_end d fs) o others c cs
        (find-on_fetch_end_other uid d o fs e v.0) busy v.1 h

-- A completion of the fetch is still to come.
abbrev pub Arrives : ℕ → List Completion → Type 0
Arrives uid [] = ⊥
Arrives uid (c ∷ cs) = (c.uid ≡ uid) ⊎ Arrives uid cs

-- A round that sleeps, with what is known of the rounds behind it.
wait_round :
    (uid : ℕ) (fs : Fetches) (o : FetchObject) (c : Completion) (cs : List Completion)
    → find uid fs ≡ some o
    → (c.uid ≡ uid) ⊎ Arrives uid cs
    → (find uid (on_fetch_end c fs) ≡ some o
        → Arrives uid cs
        → (w : Waited) × (wait_done uid (on_fetch_end c fs) cs ≡ ok w))
    → ((c.uid == uid) ≡ true) ⊎ ((c.uid == uid) ≡ false)
    → (w : Waited) × (wait_done uid (on_fetch_end c fs) cs ≡ ok w)
wait_round uid fs o c cs e h again (inl own) = (
  _,
  wait_done_finished uid (on_fetch_end c fs) (ended c o) cs
      (find-on_fetch_end uid c o fs e (==→eq c.uid uid own)) refl,
)
wait_round uid fs o c cs e (inl h) again (inr other) = absurd (ground arith)
wait_round uid fs o c cs e (inr more) again (inr other) =
    again (find-on_fetch_end_other uid c o fs e (λ same. ground arith)) more

-- The loop ends if the fetch has ended or will.
pub wait_done_returns :
    (uid : ℕ) (fs : Fetches) (o : FetchObject) (cs : List Completion)
    → find uid fs ≡ some o
    → (o.done ≡ true) ⊎ Arrives uid cs
    → (w : Waited) × (wait_done uid fs cs ≡ ok w)
wait_done_returns uid fs o cs e (inl over) = (_, wait_done_finished uid fs o cs e over)
wait_done_returns uid fs o [] e (inr h) = absurd h
wait_done_returns uid fs o (c ∷ cs) e (inr h) = elim (Bool-cases o.done) [
  | inl over ↦ (_, wait_done_finished uid fs o (c ∷ cs) e over)
  | inr busy ↦
      let (w, k) =
        wait_round uid fs o c cs e h
          (λ e' more. wait_done_returns uid (on_fetch_end c fs) o cs e' (inr more))
          (Bool-cases (c.uid == uid)) in
      (w, wait_done_busy uid fs o c cs e busy ∙ k)
]
