-- ===== src/Bakery/Family.antt =====
-- C arrays that are only read and written at single places, as functions.
use sem_os.Base.{ℕ, ◌==◌, if◌then◌else◌}

abbrev pub update {ℓ} : {A : Type ℓ} → (ℕ → A) → ℕ → A → ℕ → A
update f i a j = if i == j then a else f j
