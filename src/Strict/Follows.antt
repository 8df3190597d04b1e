-- ===== src/Strict/Follows.antt =====
-- What each method of the strict executor keeps: a result of the entry stays, one pulse tells of the end,
-- the pulses of a subject are numbered one after the other, and the kernel is only changed by calls
-- of its methods, of which the allowed ones are answered with a value.
use weft_end.Prelude.{
  ℕ, suc, ◌+◌, ◌≤◌, ◌≡◌, refl, ◌∙◌, ap, String, Bool, true, false, Option, none, some, List, [],
  ◌++◌, length, arith, length-append, if◌then◌else◌,
}
use weft_end.Kernel.Trace.{Call, run, allowed_requests}
use weft_end.Kernel.Types.{CapKernel}
use weft_end.Strict.Types.{SandboxResult, Executor, Effect}
use weft_end.Strict.State.{last_pulse, then_do}
use weft_end.Strict.Effects.{
  grants, pulses, numbers, exits, kernel_after, CountsUp, CountsUp-append, grants-append,
  pulses-append, numbers-append, exits-append, run-append, kernel_after-append,
}

-- 1 once the pulse of the end has been told.
abbrev pub told : Bool → ℕ
told true = 1
told false = 0

-- Without a channel no invocation waits.
abbrev pub Ported : Executor → Type 0
Ported x = x.host_port ≡ false → x.waiting ≡ []

-- The kernel goes on by calls of its methods, and the allowed requests of these are granted.
abbrev pub Refines : CapKernel → CapKernel → List String → Type 0
Refines k after granted =
    (cs : List Call) × (kernel_after k cs ≡ after) × (allowed_requests (run k cs) ≡ granted)

pub record Follows (x : Executor) (after : Executor × List Effect) : Type 0 where
  pub entry : (r : SandboxResult) → x.entry ≡ some r → after.0.entry ≡ some r
  pub exit : told x.exit_pulse_emitted + exits (pulses after.1) ≤ told after.0.exit_pulse_emitted
  pub counts : (key : String) → CountsUp (suc (last_pulse x key)) (numbers key (pulses after.1))
  pub counted :
      (key : String)
      → last_pulse after.0 key ≡ last_pulse x key + length (numbers key (pulses after.1))
  pub port : x.host_port ≡ true → after.0.host_port ≡ true
  pub ported : Ported x → Ported after.0
  pub refines : Refines x.kernel after.0.kernel (grants after.1)

pub Refines-refl : (k : CapKernel) → Refines k k []
unfolding kernel_after run allowed_requests
Refines-refl k = ([], refl, refl)

Refines-trans :
    (a b c : CapKernel) (xs ys : List String)
    → Refines a b xs
    → Refines b c ys
    → Refines a c (xs ++ ys)
Refines-trans a b c xs ys (cs, p, q) (ds, r, s) = (
  cs ++ ds,
  kernel_after-append a cs ds ∙ (ap (λ k. kernel_after k ds) p ∙ r),
  run-append a cs ds
      ∙ (ap (λ k. allowed_requests (run a cs) ++ allowed_requests (run k ds)) p
          ∙ (ap (λ g. g ++ allowed_requests (run b ds)) q ∙ ap (λ g. xs ++ g) s)),
)

-- One method after another one.
pub Follows-append :
    (x y z : Executor) (es fs : List Effect)
    → Follows x (y, es)
    → Follows y (z, fs)
    → Follows x (z, es ++ fs)
Follows-append x y z es fs h k = record {
  entry = λ r e. k.entry r (h.entry r e);
  exit =
      omega (
        arith,
        h.exit,
        k.exit,
        ap exits (pulses-append es fs),
        exits-append (pulses es) (pulses fs),
      );
  counts = λ key.
      rw (pulses-append es fs, numbers-append key (pulses es) (pulses fs))
        (CountsUp-append (suc (last_pulse x key)) (suc (last_pulse y key)) (numbers key (pulses es))
          (numbers key (pulses fs)) (omega (arith, h.counted key)) (h.counts key) (k.counts key));
  counted = λ key.
      rw (pulses-append es fs, numbers-append key (pulses es) (pulses fs))
        (omega (
          arith,
          h.counted key,
          k.counted key,
          length-append (numbers key (pulses es)) (numbers key (pulses fs)),
        ));
  port = λ e. k.port (h.port e);
  ported = λ e. k.ported (h.ported e);
  refines =
      rw (grants-append es fs)
        (Refines-trans x.kernel y.kernel z.kernel (grants es) (grants fs) h.refines k.refines);
}

pub Follows-then :
    (x : Executor) (before : Executor × List Effect) (f : Executor → Executor × List Effect)
    → Follows x before
    → Follows before.0 (f before.0)
    → Follows x (then_do before f)
unfolding then_do
Follows-then x before f h k = Follows-append x before.0 (f before.0).0 before.1 (f before.0).1 h k

-- A method that leaves alone what is observed, and has no pulse and no answer among its effects.
pub Follows-quiet :
    (x y : Executor) (es : List Effect)
    → y.entry ≡ x.entry
    → told x.exit_pulse_emitted ≤ told y.exit_pulse_emitted
    → y.pulse_seq_by_subject ≡ x.pulse_seq_by_subject
    → (x.host_port ≡ true → y.host_port ≡ true)
    → (Ported x → Ported y)
    → Refines x.kernel y.kernel []
    → pulses es ≡ []
    → grants es ≡ []
    → Follows x (y, es)
unfolding last_pulse numbers exits
Follows-quiet x y es entry exit seqs port ported refines p g = record {
  entry = λ r e. entry ∙ e;
  exit = rw p (omega arith);
  counts = λ key. rw p tt;
  counted = λ key. rw (p, seqs) (omega arith);
  port = port;
  ported = ported;
  refines = rw g refines;
}

-- A method without an effect that leaves alone what is observed, but for calls of the kernel.
pub Follows-set :
    (x y : Executor)
    → y.entry ≡ x.entry
    → y.exit_pulse_emitted ≡ x.exit_pulse_emitted
    → y.pulse_seq_by_subject ≡ x.pulse_seq_by_subject
    → y.host_port ≡ x.host_port
    → (Ported x → Ported y)
    → Refines x.kernel y.kernel []
    → Follows x (y, [])
unfolding pulses grants
Follows-set x y entry exit seqs port ported refines =
    Follows-quiet x y [] entry (rw exit (omega arith)) seqs (λ e. port ∙ e) ported refines refl refl

pub Follows-refl : (x : Executor) → Follows x (x, [])
Follows-refl x = Follows-set x x refl refl refl refl (λ p. p) (Refines-refl x.kernel)

-- Both branches of a test, and both cases of an option.
module _ (x : Executor) where
  pub Follows-if :
      (b : Bool) (t e : Executor × List Effect)
      → (b ≡ true → Follows x t)
      → (b ≡ false → Follows x e)
      → Follows x (if b then t else e)
  Follows-if true t e h k = h refl
  Follows-if false t e h k = k refl

  pub Follows-elim {ℓ} :
      {A : Type ℓ} (o : Option A) (t : Executor × List Effect) (f : A → Executor × List Effect)
      → (o ≡ none → Follows x t)
      → ((a : A) → o ≡ some a → Follows x (f a))
      → Follows x (elim o [ none ↦ t | some a ↦ f a ])
  Follows-elim none t f h k = h refl
  Follows-elim (some a) t f h k = k a refl

  -- The same for a method without an effect.
  pub Follows-if_state :
      (b : Bool) (t e : Executor)
      → (b ≡ true → Follows x (t, []))
      → (b ≡ false → Follows x (e, []))
      → Follows x ((if b then t else e), [])
  Follows-if_state true t e h k = h refl
  Follows-if_state false t e h k = k refl

  pub Follows-elim_state {ℓ} :
      {A : Type ℓ} (o : Option A) (t : Executor) (f : A → Executor)
      → (o ≡ none → Follows x (t, []))
      → ((a : A) → o ≡ some a → Follows x (f a, []))
      → Follows x ((elim o [ none ↦ t | some a ↦ f a ]), [])
  Follows-elim_state none t f h k = h refl
  Follows-elim_state (some a) t f h k = k a refl
