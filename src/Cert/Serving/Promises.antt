-- ===== src/Cert/Serving/Promises.antt =====
-- What `issue_for_host` promises, and where it waits for itself.
use webcm.Common.{
  ℕ, ◌+◌, ◌≡◌, ◌⊎◌, inl, inr, sym, ◌∙◌, ap, List, true, false, some, some-injective, ok, stuck,
}
use webcm.Cert.Heap.{Env, Heap, pure, ◌>>=◌, wait_forever}
use webcm.Cert.Rules.{Runs, Runs-returns, impossible, Owns, Succeeds}
use webcm.Cert.Objects.{Certificate, CertPair, no_pair, CertStore}
use webcm.Cert.Authority.{held_pair, held}
use webcm.Cert.Leaf.{Pushes}
use webcm.Cert.Paths.{Disk}
use webcm.Cert.Disk.{Pem}
use webcm.Cert.Store.{find_cert, lock, ensure_ca, issue_for_host}
use webcm.Cert.Serving.{IsFor, Serves, IsIdle}
use webcm.Cert.Serving.Cache.{answer, view, Memo}
use webcm.Cert.Serving.Issue.{IsGood, Issues}
use webcm.Cert.Serving.Answer.{issue_for_host-Runs}

module _ (env : Env) (pem : Pem) (f : ℕ → ℕ) (pushes : Pushes env) (hostname : List ℕ) (disk : Disk)
    (s : CertStore) (idle : IsIdle env s) (loaded : s.ca_loaded ≡ true) where
  abbrev pub serves : Serves env s
  serves = idle.loaded loaded

  pub answers-Runs :
      {h : Heap}
      → Owns (λ k. held s k + f k) h
      → Runs
          (λ r h'.
            Issues env serves.ca serves.ca_key hostname disk s f r h'
            × (Succeeds env
                → (a : Certificate × ℕ) → view s hostname ≡ some a
                → answer r.0 ≡ some a))
          (issue_for_host env pem hostname disk s)
          h
  answers-Runs v =
      issue_for_host-Runs env pem f serves.ca serves.ca_key pushes hostname disk s loaded
        serves.has_cert serves.has_key serves.cache idle.unlocked v

  pub still_serves :
      {h : Heap} (pair : CertPair) (s' : CertStore) (disk' : Disk)
      → Issues env serves.ca serves.ca_key hostname disk s f (pair, s', disk') h
      → (s'.ca_loaded ≡ true) × IsIdle env s'
  still_serves pair s' disk' x =
      let same_loaded : s'.ca_loaded ≡ true = ap (λ t. t.ca_loaded) x.same_store ∙ loaded in
      (
        same_loaded,
        record {
          unlocked = ap (λ t. t.locked) x.same_store;
          loaded = λ e. record {
            ca = serves.ca;
            ca_key = serves.ca_key;
            has_cert = ap (λ t. t.ca_cert) x.same_store ∙ serves.has_cert;
            has_key = ap (λ t. t.ca_key) x.same_store ∙ serves.has_key;
            cache = x.cache;
          };
          empty = λ e. impossible same_loaded e;
        },
      )

  -- If a CA is loaded, the store is between two calls, and a stack takes the names it is given,
  -- `issue_for_host` returns whatever else
  -- fails, with the lock released and the store between two calls again. It releases what neither the
  -- store nor the pair holds, and touches no file. The pair is empty because a call has failed, or it
  -- was issued, now or before: signed by the CA of the store, and for this host if no call fails.
  pub issue_for_host_lem :
      (h : Heap)
      → Owns (λ k. held s k + f k) h
      → (pair : CertPair) × (s' : CertStore) × (h' : Heap) × (issue_for_host env pem hostname disk s
            h
          ≡ ok ((pair, s', disk), h'))
        × Owns (λ k. held_pair pair k + (held s' k + f k)) h'
        × (s'.ca_loaded ≡ true)
        × IsIdle env s'
        × (((pair ≡ no_pair) × (Succeeds env → ⊥))
            ⊎ IsFor env serves.ca serves.ca_key hostname pair)
  issue_for_host_lem h v =
      let r = answers-Runs v in
      let x = r.holds.0 in
      let still = still_serves r.value.0 r.value.1 r.value.2 x in
      (
        r.value.0,
        r.value.1,
        r.after,
        r.returns ∙ ap (λ d. ok ((r.value.0, r.value.1, d), r.after)) x.same_disk,
        x.owns,
        still.0,
        still.1,
        x.answered,
      )

  -- To its clients `issue_for_host` is a memo, when it returns, if a CA is loaded, the store is between two
  -- calls, and a stack takes the names it is given: it answers what it knows for the name, or
  -- makes an answer, signed by the CA and for this name if no call fails, and keeps it or not, or has
  -- none; and what it knows for other names stays. If no call fails it has an answer, the one it knows if it
  -- knows one, and knows it afterwards.
  pub issue_for_host-Memo :
      (h : Heap)
      → Owns (λ k. held s k + f k) h
      → (pair : CertPair) (s' : CertStore) (disk' : Disk) (h' : Heap)
      → issue_for_host env pem hostname disk s h ≡ ok ((pair, s', disk'), h')
      → Memo (IsGood env serves.ca serves.ca_key hostname) hostname (view s) (answer pair) (view s')
        × (Succeeds env
            → (a : Certificate × ℕ) × (answer pair ≡ some a)
              × (view s' hostname ≡ some a)
              × ((b : Certificate × ℕ) → view s hostname ≡ some b → a ≡ b))
  issue_for_host-Memo h v pair s' disk' h' e =
      let x = Runs-returns (answers-Runs v) e in
      (x.0.memo, λ all. answered all x.0.answered (x.0.remembered all) (x.1 all))
    where
      answered :
          Succeeds env
          → (((pair ≡ no_pair) × (Succeeds env → ⊥))
              ⊎ IsFor env serves.ca serves.ca_key hostname pair)
          → view s' hostname ≡ answer pair
          → ((a : Certificate × ℕ) → view s hostname ≡ some a → answer pair ≡ some a)
          → (a : Certificate × ℕ) × (answer pair ≡ some a)
            × (view s' hostname ≡ some a)
            × ((b : Certificate × ℕ) → view s hostname ≡ some b → a ≡ b)
      answered all (inl none_made) r k = absurd (none_made.1 all)
      answered all (inr (now, issued)) r k =
          let given = ap answer issued.is_pair in
          (
            (issued.cert.content, issued.key.secret),
            given,
            r ∙ given,
            λ b e. some-injective _ b (sym given ∙ k b e),
          )

-- An idle store with no CA: `issue_for_host` takes the lock and calls `ensure_ca`, which takes it again,
-- so the call never returns, for any host.
pub issue_for_host-stuck :
    (env : Env) (pem : Pem) (hostname : List ℕ) (disk : Disk) (s : CertStore) (h : Heap)
    → IsIdle env s
    → s.ca_loaded ≡ false
    → issue_for_host env pem hostname disk s h ≡ stuck
unfolding issue_for_host lock ensure_ca ◌>>=◌ wait_forever pure find_cert
issue_for_host-stuck env pem hostname disk s h idle e = rw (idle.unlocked, idle.empty e, e)
