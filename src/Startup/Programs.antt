-- ===== src/Startup/Programs.antt =====
-- A goroutine as a program of calls on the world, between which others run.
use app_lifecycle_kubernetes.Base.{ℕ, ◌≤◌, Result, Action, arith}
use app_lifecycle_kubernetes.Client.{Client}

-- It has returned, or it makes a call and goes on by the world that the call met.
pub data Program (W A : Type 0) : Type 0 where
  returned : A → Program W A
  call : (W → W) → (W → Program W A) → Program W A

infixl 5 ◌>>=◌ ◌>>◌
abbrev pub ◌>>=◌ : {W A B : Type 0} → Program W A → (A → Program W B) → Program W B
returned a >>= f = f a
call act next >>= f = call act (λ w. next w >>= f)

abbrev pub ◌>>◌ : {W B : Type 0} → Program W (Unit {0}) → Program W B → Program W B
p >> q = p >>= λ _. q

abbrev pub perform : {W A : Type 0} → Action W A → Program W (Result A)
perform m = call (λ w. (m w).1) (λ w. returned (m w).0)

-- `time.Now()` and `time.Sleep`
abbrev pub time_now : {W : Type 0} → Client W → Program W ℕ
time_now c = call (λ w. (c.now w).1) (λ w. returned (c.now w).0)

abbrev pub sleep_for : {W : Type 0} → Client W → ℕ → Program W (Unit {0})
sleep_for c n = call (c.sleep n) (λ _. returned tt)

-- Whatever happens between its calls, the program returns a value with the property, where no call of
-- its own and nothing else turns the clock back; the time is the earliest at which it goes on.
module _ {W A : Type 0} (reads : W → ℕ) (P : A → Type 0) where
  abbrev pub Outlasts : Program W A → ℕ → Type 0
  Outlasts (returned a) t = P a
  Outlasts (call act next) t =
      (w : W) → t ≤ reads w → (t ≤ reads (act w)) × Outlasts (next w) (reads (act w))

pub bind-Outlasts :
    {W A B : Type 0} (reads : W → ℕ) (Q : A → Type 0) (P : B → Type 0) (p : Program W A)
    (f : A → Program W B) (t : ℕ)
    → Outlasts reads Q p t
    → ((a : A) (u : ℕ) → t ≤ u → Q a → Outlasts reads P (f a) u)
    → Outlasts reads P (p >>= f) t
bind-Outlasts reads Q P (returned a) f t h k = k a t (omega arith) h
bind-Outlasts reads Q P (call act next) f t h k = λ w le. (
  (h w le).0,
  bind-Outlasts reads Q P (next w) f (reads (act w)) (h w le).1
      (λ a u later. k a u (omega (arith, (h w le).0))),
)
