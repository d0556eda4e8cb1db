-- ===== src/Prelude/Perms.antt =====
-- Membership carried along a permutation, with its evidence.

use mathlib.Core.List.{List, Memᴰ, Permᴰ}
use mathlib.Core.Path.{◌∙◌}

pub Mem_of_Perm {ℓ} : {A : Type ℓ} {a : A} {xs ys : List A} → Permᴰ xs ys → Memᴰ a xs → Memᴰ a ys
Mem_of_Perm Permᴰ.nil m = elim m [ ]
Mem_of_Perm (Permᴰ.cons e d) (Memᴰ.head f) = Memᴰ.head (f ∙ e)
Mem_of_Perm (Permᴰ.cons e d) (Memᴰ.tail m) = Memᴰ.tail (Mem_of_Perm d m)
Mem_of_Perm (Permᴰ.swap e₁ e₂) (Memᴰ.head f) = Memᴰ.tail (Memᴰ.head (f ∙ e₁))
Mem_of_Perm (Permᴰ.swap e₁ e₂) (Memᴰ.tail (Memᴰ.head f)) = Memᴰ.head (f ∙ e₂)
Mem_of_Perm (Permᴰ.swap e₁ e₂) (Memᴰ.tail (Memᴰ.tail m)) = Memᴰ.tail (Memᴰ.tail m)
Mem_of_Perm (Permᴰ.trans d₁ d₂) m = Mem_of_Perm d₂ (Mem_of_Perm d₁ m)
