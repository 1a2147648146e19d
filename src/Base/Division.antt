-- ===== src/Base/Division.antt =====
-- Products and rounded quotients of numbers.
use stellar_stream_hive_cont.Base.{ℕ, ◌+◌, ◌*◌, ◌/◌, ◌≤◌, ◌<◌, ◌≡◌, arith}

pub mul_mono_right : (a b d : ℕ) → b ≤ d → a * b ≤ a * d
mul_mono_right a b d h = grind arith

pub mul-div-le : (a b d : ℕ) → b ≤ d → 1 ≤ d → a * b / d ≤ a
mul-div-le a b d h k = grind arith

pub div_floor : (a d : ℕ) → 1 ≤ d → (a / d * d ≤ a) × (a < (a / d + 1) * d)
div_floor a d k = grind arith

pub div_mono : (a b d : ℕ) → a ≤ b → 1 ≤ d → a / d ≤ b / d
div_mono a b d h k = grind (arith, div_floor a d, div_floor b d)

pub mul-div_self : (a d : ℕ) → 1 ≤ d → a * d / d ≡ a
mul-div_self a d k = grind arith
