-- ===== src/Base/Maps.antt =====
-- `Map<string, V>` and `Record<string, V>` as association lists, in insertion order.
use Prim.Native.String.{String}
use mathlib.Core.Path.{◌≡◌}
use mathlib.Core.Option.{Option, none, some}
use mathlib.Core.List.{List, [], ◌∷◌}
use native.Mathlib.Omega.{arith}
use text.Mathlib.TextEquality.{eq_iff}
use ai_receptionist.Base.Tests.{if◌then◌else◌, ◌=ˢ◌}

abbrev pub Dict {ℓ} : Type ℓ → Type ℓ
Dict V = List (String × V)

module _ {ℓ} {V : Type ℓ} where
  unfoldable pub lookup : String → Dict V → Option V
  lookup id [] = none
  lookup id ((here, found) ∷ dict) = if here =ˢ id then some found else lookup id dict

  -- A known key keeps its place, a new one goes last.
  unfoldable pub insert : String → V → Dict V → Dict V
  insert id new [] = (id, new) ∷ []
  insert id new ((here, old) ∷ dict) =
      if here =ˢ id then (here, new) ∷ dict else (here, old) ∷ insert id new dict

  unfoldable pub delete : String → Dict V → Dict V
  delete id [] = []
  delete id ((here, old) ∷ dict) =
      let others = delete id dict in if here =ˢ id then others else (here, old) ∷ others

  pub lookup-insert :
      (id other : String) (new : V) (dict : Dict V)
      → lookup other (insert id new dict) ≡ (if id =ˢ other then some new else lookup other dict)
  unfolding lookup insert
  lookup-insert id other new [] = ground arith
  lookup-insert id other new ((here, old) ∷ dict) =
      let later = lookup-insert id other new dict in
      ground (arith, later, eq_iff here other, eq_iff id other, eq_iff here id)

  pub lookup-delete :
      (id other : String) (dict : Dict V)
      → lookup other (delete id dict) ≡ (if id =ˢ other then none else lookup other dict)
  unfolding lookup delete
  lookup-delete id other [] = ground arith
  lookup-delete id other ((here, old) ∷ dict) =
      ground
        (arith, lookup-delete id other dict, eq_iff here id, eq_iff here other, eq_iff id other)
