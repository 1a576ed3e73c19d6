-- ===== src/Host/Fetches/Entries.antt =====
-- How often a key stands in the map, through each operation.
use webcm.Common.{
  ℕ, ◌+◌, ◌≡◌, refl, ◌∙◌, List, [], ◌∷◌, true, ◌==◌, if◌then◌else◌, Option, none, some, Outcome,
  stuck, Returned, Returned-mono, Bool-cases, inl, inr, arith,
}
use webcm.Host.Fetches.{
  FetchObject, Fetches, find, insert, erase, Completion, on_fetch_end, Waited, stop, wait_done,
}

abbrev pub occurs : ℕ → ℕ → ℕ
occurs k uid = if k == uid then 1 else 0

abbrev pub entries : ℕ → Fetches → ℕ
entries uid [] = 0
entries uid ((k, o) ∷ fs) = occurs k uid + entries uid fs

pub entries-find-none : (uid : ℕ) (fs : Fetches) → find uid fs ≡ none → entries uid fs ≡ 0
unfolding find
entries-find-none uid [] e = refl
entries-find-none uid ((k, o) ∷ fs) e = ground (arith, entries-find-none uid fs)

pub entries-insert :
    (j uid : ℕ) (o : FetchObject) (fs : Fetches)
    → find uid fs ≡ none
    → entries j (insert uid o fs) ≡ entries j fs + occurs uid j
unfolding find insert
entries-insert j uid o [] e = omega arith
entries-insert j uid o ((k, p) ∷ fs) e = ground (arith, entries-insert j uid o fs)

pub entries-erase :
    (j uid : ℕ) (o : FetchObject) (fs : Fetches)
    → find uid fs ≡ some o
    → entries j fs ≡ entries j (erase uid fs) + occurs uid j
unfolding find erase
entries-erase j uid o [] e = cc
entries-erase j uid o ((k, p) ∷ fs) e = ground (arith, entries-erase j uid o fs)

pub entries-on_fetch_end :
    (j : ℕ) (c : Completion) (fs : Fetches) → entries j (on_fetch_end c fs) ≡ entries j fs
unfolding on_fetch_end
entries-on_fetch_end j c [] = refl
entries-on_fetch_end j c ((k, o) ∷ fs) = ground (arith, entries-on_fetch_end j c fs)

-- What the wait leaves: the same keys, and the fetch that was waited for among them, done.
pub record IsWaited (uid : ℕ) (fs : Fetches) (w : Waited) : Type 0 where
  pub same_keys : (j : ℕ) → entries j w.fetches ≡ entries j fs
  pub object : FetchObject
  pub found : find uid w.fetches ≡ some object
  pub finished : object.done ≡ true
  pub its_fetch : w.fetch ≡ object.fetch

stop-IsWaited :
    (uid : ℕ) (fs : Fetches) (cs : List Completion) (again : Outcome Waited)
    (o : Option FetchObject)
    → find uid fs ≡ o
    → Returned (IsWaited uid fs) again
    → Returned (IsWaited uid fs) (stop o fs cs again)
stop-IsWaited uid fs cs again none e h = tt
stop-IsWaited uid fs cs again (some o) e h = elim (Bool-cases o.done) [
  | inl over ↦
      rw over
        (record { same_keys = λ j. refl; object = o; found = e; finished = over; its_fetch = refl })
  | inr busy ↦ rw busy h
]

later-IsWaited :
    (uid : ℕ) (c : Completion) (fs : Fetches) (w : Waited)
    → IsWaited uid (on_fetch_end c fs) w
    → IsWaited uid fs w
later-IsWaited uid c fs w v = record {
  same_keys = λ j. v.same_keys j ∙ entries-on_fetch_end j c fs;
  object = v.object;
  found = v.found;
  finished = v.finished;
  its_fetch = v.its_fetch;
}

pub wait_done-IsWaited :
    (uid : ℕ) (fs : Fetches) (cs : List Completion)
    → Returned (IsWaited uid fs) (wait_done uid fs cs)
unfolding wait_done
wait_done-IsWaited uid fs [] = stop-IsWaited uid fs [] stuck (find uid fs) refl tt
wait_done-IsWaited uid fs (c ∷ cs) =
    stop-IsWaited uid fs (c ∷ cs) (wait_done uid (on_fetch_end c fs) cs) (find uid fs) refl (
      Returned-mono (IsWaited uid (on_fetch_end c fs)) (IsWaited uid fs)
        (wait_done uid (on_fetch_end c fs) cs) (later-IsWaited uid c fs)
        (wait_done-IsWaited uid (on_fetch_end c fs) cs))
