-- ===== src/Cert/Serving/Answer.antt =====
-- `issue_for_host` as a whole.
use webcm.Common.{
  ℕ, ◌+◌, ◌≡◌, inr, refl, sym, ◌∙◌, ap, subst, List, true, false, if◌then◌else◌, Option, none, some,
  arith,
}
use webcm.Cert.Heap.{Env, Heap, pure, ◌>>=◌, wait_forever}
use webcm.Cert.Rules.{Runs, Runs-pure, Runs-bind, Runs-mono, Runs-as, Owns, Owns-same, Succeeds}
use webcm.Cert.Objects.{Certificate, X509, Key, CertPair, CertStore}
use webcm.Cert.Authority.{held}
use webcm.Cert.Leaf.{Pushes}
use webcm.Cert.Paths.{Disk}
use webcm.Cert.Disk.{Pem}
use webcm.Cert.Store.{
  find_cert, lock, issue_new, issue_uncached, issue_found, issue_locked, ensure_ca, issue_for_host,
}
use webcm.Cert.Serving.{IsFor, IsCached}
use webcm.Cert.Serving.Cache.{held_some, find_cert-IsFor, answer, answer_some, view, Memo, known}
use webcm.Cert.Serving.Copies.{IsDup, dup_pair-Runs}
use webcm.Cert.Serving.Issue.{IsGood, copied-IsFor, Issues, issue_new-Runs}

module _ (env : Env) (pem : Pem) (f : ℕ → ℕ) (ca : X509) (ca_key : Key) (pushes : Pushes env)
    (hostname : List ℕ) (disk : Disk) (s : CertStore) (loaded : s.ca_loaded ≡ true)
    (has_cert : s.ca_cert ≡ some ca) (has_key : s.ca_key ≡ some ca_key)
    (was : IsCached env ca ca_key s.cert_cache) where
  abbrev Result : CertPair × CertStore × Disk → Heap → Type 0
  Result r h =
      Issues env ca ca_key hostname disk s f r h
      × (Succeeds env → (a : Certificate × ℕ) → view s hostname ≡ some a → answer r.0 ≡ some a)

  abbrev taken : CertStore
  taken = record s { locked = true }

  uncached-Runs :
      {h : Heap}
      → (Succeeds env → (a : Certificate × ℕ) → view s hostname ≡ some a → ⊥)
      → Owns (λ k. held s k + f k) h
      → Runs Result (issue_uncached env pem hostname disk taken none) h
  uncached-Runs {h} never v =
      Runs-as
        (ap
          (λ b.
            (if b then pure (true, taken, disk) else ensure_ca env pem disk taken)
            >>= issue_new env pem hostname)
          loaded)
        (Runs-bind
          (Runs-pure {P = λ r h'. (r ≡ (true, taken, disk)) × Owns (λ k. held s k + f k) h'} _ h
            (refl, v))
          λ r h1 w. rw w.0 (
            Runs-mono
              (issue_new-Runs env pem f ca ca_key pushes hostname disk taken has_cert has_key was
                w.1)
              (λ r' h2 x. (
                record {
                  owns = x.owns;
                  same_disk = x.same_disk;
                  same_store = x.same_store;
                  cache = x.cache;
                  answered = x.answered;
                  memo = x.memo;
                  remembered = x.remembered;
                },
                λ all a e. absurd (never all a e),
              ))))

  copied-Runs :
      (cert : X509) (key : Key)
      → IsFor env ca ca_key hostname (record { cert = some cert; key = some key })
      → find_cert hostname s.cert_cache ≡ some (record { cert = some cert; key = some key })
      → (o : Option CertPair) (h : Heap)
      → Owns (λ k. held_some o k + (held s k + f k)) h × IsDup env cert key o
      → Runs Result (issue_uncached env pem hostname disk taken o) h
  copied-Runs cert key is_for found none h w =
      uncached-Runs (λ all. absurd (w.1 all)) (Owns-same w.0 (λ k. omega arith))
  copied-Runs cert key is_for found (some copy) h (v, (id, e)) = Runs-pure _ h (
    (record {
      owns = v;
      same_disk = refl;
      same_store = refl;
      cache = was;
      answered = inr (rw e (copied-IsFor env ca ca_key hostname cert key id is_for));
      memo =
          subst (λ o. Memo (IsGood env ca ca_key hostname) hostname (view s) o (view s))
            (sym (ap answer e)) (known (view s) (cert.content, key.secret) (ap answer_some found));
      remembered = λ all. ap answer_some found ∙ sym (ap answer e);
    }),
    λ all a e'. ap answer e ∙ sym (ap answer_some found) ∙ e',
  )

  found-Runs :
      {h : Heap} (o : Option CertPair)
      → find_cert hostname s.cert_cache ≡ o
      → Owns (λ k. held s k + f k) h
      → Runs Result (issue_found env pem hostname disk taken o) h
  found-Runs none found v = uncached-Runs (λ all a e. absurd (cc (ap answer_some found, e))) v
  found-Runs (some pair) found v =
      let is_for = find_cert-IsFor hostname env ca ca_key s.cert_cache pair was found in
      let issued = is_for.1 in
      rw issued.is_pair (
        Runs-bind (dup_pair-Runs env pem (λ k. held s k + f k) issued.cert issued.key v) (
          copied-Runs issued.cert issued.key
            (subst (λ p. IsFor env ca ca_key hostname p) issued.is_pair is_for)
            (found ∙ ap some issued.is_pair)))

  pub issue_for_host-Runs :
      {h : Heap}
      → s.locked ≡ false
      → Owns (λ k. held s k + f k) h
      → Runs
          (λ r h'.
            Issues env ca ca_key hostname disk s f r h'
            × (Succeeds env
                → (a : Certificate × ℕ) → view s hostname ≡ some a
                → answer r.0 ≡ some a))
          (issue_for_host env pem hostname disk s)
          h
  unfolding issue_for_host lock
  issue_for_host-Runs {h} unlocked v =
      Runs-as
        (ap (λ b. (if b then wait_forever else pure taken) >>= issue_locked env pem hostname disk)
          unlocked)
        (Runs-bind
          (Runs-pure {P = λ t h'. (t ≡ taken) × Owns (λ k. held s k + f k) h'} _ h (refl, v))
          λ t h1 w. rw w.0 (found-Runs (find_cert hostname s.cert_cache) refl w.1))
