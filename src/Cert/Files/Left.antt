-- ===== src/Cert/Files/Left.antt =====
-- What a failed write leaves is in the hands of the environment.
use webcm.Common.{ℕ, refl}
use webcm.Cert.Heap.{Env, Heap, left}
use webcm.Cert.Rules.{Runs, Owns}

pub left-Runs :
    {f : ℕ → ℕ} {h : Heap} (env : Env) → Owns f h → Runs (λ bytes h'. Owns f h') (left env) h
unfolding left
left-Runs {h = h} env v = record {
  value = env.left_over h.asked;
  after = h;
  returns = refl;
  holds = v;
}
