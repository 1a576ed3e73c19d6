-- ===== src/Host/Fetches.antt =====
-- `fetch_object` and the map `fetches` of webcm.cpp, with the two callbacks of a fetch.
pub mod Entries
pub mod Waits
use webcm.Common.{
  ℕ, List, [], ◌∷◌, Bool, true, false, ◌==◌, if◌then◌else◌, Option, none, some, Outcome, ok, fault,
  stuck, ◌>>=◌,
}
use webcm.Host.Machine.{Fetch}

-- The member `uid` keeps its initial value: nothing assigns it.
pub record FetchObject : Type 0 where
  pub uid : ℕ
  pub fetch : Fetch
  pub body : List ℕ
  pub done : Bool

-- The map, as an association list.
abbrev pub Fetches : Type 0
Fetches = List (ℕ × FetchObject)

unfoldable pub find : ℕ → Fetches → Option FetchObject
find uid [] = none
find uid ((k, o) ∷ fs) = if k == uid then some o else find uid fs

-- `fetches[uid] = std::move(o)`
unfoldable pub insert : ℕ → FetchObject → Fetches → Fetches
insert uid o [] = (uid, o) ∷ []
insert uid o ((k, p) ∷ fs) = if k == uid then (k, o) ∷ fs else (k, p) ∷ insert uid o fs

unfoldable pub erase : ℕ → Fetches → Fetches
erase uid [] = []
erase uid ((k, o) ∷ fs) = if k == uid then fs else (k, o) ∷ erase uid fs

-- A fetch comes to its end: the library fills it in and calls `on_fetch_success` or `on_fetch_error`,
-- which do the same to the object that the fetch's `userData` points to.
pub record Completion : Type 0 where
  pub uid : ℕ
  pub fetch : Fetch

unfoldable pub on_fetch_end : Completion → Fetches → Fetches
on_fetch_end c [] = []
on_fetch_end c ((k, o) ∷ fs) =
    if k == c.uid
    then (k, record o { fetch = c.fetch; done = true }) ∷ fs
    else (k, o) ∷ on_fetch_end c fs

-- What the loop leaves behind, and the completions that it did not wait for.
pub record Waited : Type 0 where
  pub fetches : Fetches
  pub fetch : Fetch
  pub later : List Completion

abbrev pub stop : Option FetchObject → Fetches → List Completion → Outcome Waited → Outcome Waited
stop none fs cs again = fault
stop (some o) fs cs again =
    if o.done then ok (record { fetches = fs; fetch = o.fetch; later = cs }) else again

-- `while (!o->done) emscripten_sleep(4);`, over the completions that arrive during the sleeps, in their
-- order. Sleeps in which nothing arrives are left out; `stuck` means that no more will arrive.
unfoldable pub wait_done : ℕ → Fetches → List Completion → Outcome Waited
unfolding find on_fetch_end
wait_done uid fs [] = stop (find uid fs) fs [] stuck
wait_done uid fs (c ∷ cs) =
    let again = wait_done uid (on_fetch_end c fs) cs in stop (find uid fs) fs (c ∷ cs) again
