-- ===== src/Strict/Effects.antt =====
-- What is read off the effects of the strict executor, and off the calls of its kernel.
use weft_end.Prelude.{
  ℕ, suc, ◌+◌, ◌≡◌, refl, ap, String, List, [], ◌∷◌, ◌++◌, length, arith, str_eq, if◌then◌else◌,
  Bool-cases, inl, inr, subst,
}
use weft_end.Kernel.Types.{CapKernel}
use weft_end.Kernel.Trace.{Call, Event, call, run, allowed_requests}
use weft_end.Kernel.Trace.Once.{Decision-cases}
use weft_end.Pulse.{Pulse, PulseKind, exit}
use weft_end.Strict.Types.{succeeded, failed, Effect, posted, pulsed}
use weft_end.Strict.State.{subject_key}

-- The requests that are answered with a value.
unfoldable pub granted_by : Effect → List String
granted_by (posted answer) = elim answer.outcome [
  | succeeded value ↦ answer.req_id ∷ []
  | failed codes ↦ []
]
granted_by _ = []

unfoldable pub grants : List Effect → List String
grants [] = []
grants (e ∷ es) = granted_by e ++ grants es

-- The pulses.
unfoldable pub pulse_of : Effect → List Pulse
pulse_of (pulsed p) = p ∷ []
pulse_of _ = []

unfoldable pub pulses : List Effect → List Pulse
pulses [] = []
pulses (e ∷ es) = pulse_of e ++ pulses es

-- The numbers of the pulses of a subject.
unfoldable pub numbers : String → List Pulse → List ℕ
numbers key [] = []
numbers key (p ∷ ps) =
    let rest = numbers key ps in
    if str_eq (subject_key p.body.subject) key then p.body.pulse_seq ∷ rest else rest

-- How many pulses tell of an end.
unfoldable pub ends : PulseKind → ℕ
ends exit = 1
ends _ = 0

unfoldable pub exits : List Pulse → ℕ
exits [] = 0
exits (p ∷ ps) = ends p.body.kind + exits ps

-- The kernel after calls of its methods.
unfoldable pub kernel_after : CapKernel → List Call → CapKernel
kernel_after k [] = k
kernel_after k (c ∷ cs) = kernel_after (call k c).0 cs

append_assoc {ℓ} : {A : Type ℓ} → (xs ys zs : List A) → (xs ++ ys) ++ zs ≡ xs ++ (ys ++ zs)
append_assoc [] ys zs = refl
append_assoc (x ∷ xs) ys zs = ap (◌∷◌ x) (append_assoc xs ys zs)

pub grants-append : (xs ys : List Effect) → grants (xs ++ ys) ≡ grants xs ++ grants ys
unfolding grants
grants-append [] ys = refl
grants-append (x ∷ xs) ys =
    rw (grants-append xs ys, append_assoc (granted_by x) (grants xs) (grants ys)) refl

pub pulses-append : (xs ys : List Effect) → pulses (xs ++ ys) ≡ pulses xs ++ pulses ys
unfolding pulses
pulses-append [] ys = refl
pulses-append (x ∷ xs) ys =
    rw (pulses-append xs ys, append_assoc (pulse_of x) (pulses xs) (pulses ys)) refl

pub numbers-append :
    (key : String) (xs ys : List Pulse) → numbers key (xs ++ ys) ≡ numbers key xs ++ numbers key ys
unfolding numbers
numbers-append key [] ys = refl
numbers-append key (x ∷ xs) ys = elim (Bool-cases (str_eq (subject_key x.body.subject) key)) [
  | inl e ↦ rw e (ap (◌∷◌ x.body.pulse_seq) (numbers-append key xs ys))
  | inr e ↦ rw e (numbers-append key xs ys)
]

pub exits-append : (xs ys : List Pulse) → exits (xs ++ ys) ≡ exits xs + exits ys
unfolding exits
exits-append [] ys = omega arith
exits-append (x ∷ xs) ys = omega (arith, exits-append xs ys)

-- The numbers from `n` on, one after the other.
abbrev pub CountsUp : ℕ → List ℕ → Type 0
CountsUp n [] = Unit
CountsUp n (x ∷ xs) = (x ≡ n) × CountsUp (suc n) xs

pub CountsUp-append :
    (n m : ℕ) (xs ys : List ℕ)
    → m ≡ n + length xs
    → CountsUp n xs
    → CountsUp m ys
    → CountsUp n (xs ++ ys)
CountsUp-append n m [] ys e hx hy = subst (λ k. CountsUp k ys) (omega arith) hy
CountsUp-append n m (x ∷ xs) ys e hx hy =
    (hx.0, CountsUp-append (suc n) m xs ys (omega arith) hx.1 hy)

allowed_requests-append :
    (xs ys : List Event) → allowed_requests (xs ++ ys) ≡ allowed_requests xs ++ allowed_requests ys
unfolding allowed_requests
allowed_requests-append [] ys = refl
allowed_requests-append (x ∷ xs) ys = elim (Decision-cases x.decision) [
  | inl e ↦ rw e (ap (◌∷◌ x.message.req_id) (allowed_requests-append xs ys))
  | inr (codes, e) ↦ rw e (allowed_requests-append xs ys)
]

pub run-append :
    (k : CapKernel) (cs ds : List Call)
    → allowed_requests (run k (cs ++ ds))
      ≡ allowed_requests (run k cs) ++ allowed_requests (run (kernel_after k cs) ds)
unfolding run kernel_after allowed_requests
run-append k [] ds = refl
run-append k (c ∷ cs) ds =
    rw
      (
        allowed_requests-append (call k c).1 (run (call k c).0 (cs ++ ds)),
        allowed_requests-append (call k c).1 (run (call k c).0 cs),
        run-append (call k c).0 cs ds,
        append_assoc (allowed_requests (call k c).1) (allowed_requests (run (call k c).0 cs))
            (allowed_requests (run (kernel_after (call k c).0 cs) ds)),
      )
      refl

pub kernel_after-append :
    (k : CapKernel) (cs ds : List Call)
    → kernel_after k (cs ++ ds) ≡ kernel_after (kernel_after k cs) ds
unfolding kernel_after
kernel_after-append k [] ds = refl
kernel_after-append k (c ∷ cs) ds = kernel_after-append (call k c).0 cs ds
