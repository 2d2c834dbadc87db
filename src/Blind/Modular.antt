-- ===== src/Blind/Modular.antt =====
-- Products and powers modulo a number.
use bitbit.Base.{ℕ, zero, suc, ◌+◌, ◌*◌, ◌/◌, ◌%◌, ◌^◌, ◌≡◌, refl, sym, ap, ◌∙◌, arith}
use native.Mathlib.Nat.{add-mul-mod_self_left, mod-add-div, pow-suc, pow-zero}

pub mul-mod_left : (a b n : ℕ) → (a % n * b) % n ≡ (a * b) % n
mul-mod_left a b n =
    let whole : a ≡ a % n + n * (a / n) = sym (mod-add-div a n) in
    let product : a * b ≡ a % n * b + n * (a / n * b) = ap (λ z. z * b) whole ∙ grind arith in
    sym (ap (λ z. z % n) product ∙ add-mul-mod_self_left (a % n * b) n (a / n * b))

pub mul-mod_right : (a b n : ℕ) → (a * (b % n)) % n ≡ (a * b) % n
mul-mod_right a b n =
    let turn : (c d : ℕ) → c * d ≡ d * c = λ c d. grind arith in
    ap (λ z. z % n) (turn a (b % n)) ∙ mul-mod_left b a n ∙ ap (λ z. z % n) (turn b a)

pub pow-mod : (a k n : ℕ) → ((a % n) ^ k) % n ≡ (a ^ k) % n
pow-mod a zero n = ap (λ z. z % n) (pow-zero (a % n) ∙ sym (pow-zero a))
pow-mod a (suc k) n =
    ap (λ z. z % n) (pow-suc (a % n) k)
    ∙ mul-mod_right ((a % n) ^ k) a n
    ∙ sym (mul-mod_left ((a % n) ^ k) a n)
    ∙ ap (λ z. (z * a) % n) (pow-mod a k n)
    ∙ mul-mod_left (a ^ k) a n
    ∙ ap (λ z. z % n) (sym (pow-suc a k))

pub mul-pow : (a b k : ℕ) → (a * b) ^ k ≡ a ^ k * b ^ k
mul-pow a b zero = rw (pow-zero (a * b), pow-zero a, pow-zero b) refl
mul-pow a b (suc k) = rw (pow-suc (a * b) k, pow-suc a k, pow-suc b k, mul-pow a b k) (grind arith)

pow-add : (a j k : ℕ) → a ^ (j + k) ≡ a ^ j * a ^ k
pow-add a j zero = let same : j + 0 ≡ j = omega arith in rw (same, pow-zero a) (omega arith)
pow-add a j (suc k) =
    let shift : j + suc k ≡ suc (j + k) = omega arith in
    rw (shift, pow-suc a (j + k), pow-suc a k, pow-add a j k) (grind arith)

pub pow-pow : (a j k : ℕ) → (a ^ j) ^ k ≡ a ^ (j * k)
pow-pow a j zero =
    let none_left : j * 0 ≡ 0 = omega arith in rw (none_left, pow-zero a, pow-zero (a ^ j)) refl
pow-pow a j (suc k) =
    let more : j * suc k ≡ j * k + j = grind arith in
    rw (more, pow-add a (j * k) j, pow-suc (a ^ j) k, pow-pow a j k) refl
