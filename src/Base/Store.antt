-- ===== src/Base/Store.antt =====
-- Functions as stores: an array or a memory is a function of its index.
use Prim.Native.Nat.{ℕ}
use os.Base.Tests.{◌==◌, if◌then◌else◌}

-- `f[i] = v`
abbrev pub update {ℓ} : {A : Type ℓ} → (ℕ → A) → ℕ → A → ℕ → A
update f i v j = if i == j then v else f j
