-- ===== src/Prelude/Orders.antt =====
-- What every order of a list has in common.
use mathlib.Core.Path.{sym, ◌∙◌, subst}
use mathlib.Core.List.{List, Permᴰ}
use event_stream_platform.Prelude.Lists.{All, Holds, here, there}

pub All-Perm {ℓ κ} :
    {A : Type ℓ} (P : A → Type κ) {xs ys : List A} → Permᴰ xs ys → All P xs → All P ys
All-Perm P Permᴰ.nil h = h
All-Perm P (Permᴰ.cons e p) h = (subst P e h.0, All-Perm P p h.1)
All-Perm P (Permᴰ.swap e e') h = (subst P e' h.1.0, (subst P e h.0, h.1.1))
All-Perm P (Permᴰ.trans p q) h = All-Perm P q (All-Perm P p h)

pub Holds-Perm {ℓ} : {A : Type ℓ} {x : A} {xs ys : List A} → Permᴰ xs ys → Holds x xs → Holds x ys
Holds-Perm Permᴰ.nil h = h
Holds-Perm (Permᴰ.cons e p) (here q) = here (q ∙ e)
Holds-Perm (Permᴰ.cons e p) (there h) = there (Holds-Perm p h)
Holds-Perm (Permᴰ.swap e e') (here q) = there (here (q ∙ e))
Holds-Perm (Permᴰ.swap e e') (there (here q)) = here (q ∙ e')
Holds-Perm (Permᴰ.swap e e') (there (there h)) = there (there h)
Holds-Perm (Permᴰ.trans p q) h = Holds-Perm q (Holds-Perm p h)

pub Perm-sym {ℓ} : {A : Type ℓ} {xs ys : List A} → Permᴰ xs ys → Permᴰ ys xs
Perm-sym Permᴰ.nil = Permᴰ.nil
Perm-sym (Permᴰ.cons e p) = Permᴰ.cons (sym e) (Perm-sym p)
Perm-sym (Permᴰ.swap e e') = Permᴰ.swap (sym e') (sym e)
Perm-sym (Permᴰ.trans p q) = Permᴰ.trans (Perm-sym q) (Perm-sym p)
