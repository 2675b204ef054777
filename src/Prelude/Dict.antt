-- ===== src/Prelude/Dict.antt =====
-- A map with text keys as an association list, for the in-memory maps of the services.
use mathlib.Core.Path.{◌≡◌, refl}
use mathlib.Core.List.{List, [], ◌∷◌}
use Prim.Native.String.{String}
use text.Mathlib.Text.{◌==◌ as str_eq}
use text.Mathlib.TextEquality.{eq_iff}
use native.Mathlib.Omega.{arith}
use job_queue_event_processi.Prelude.Tests.{if◌then◌else◌}

abbrev pub Dict {ℓ} : Type ℓ → Type ℓ
Dict A = List (String × A)

module _ {ℓ} {A : Type ℓ} where
  -- `map.getOrDefault(k, d)`.
  unfoldable pub lookup_or : A → String → Dict A → A
  lookup_or d k [] = d
  lookup_or d k ((j, v) ∷ m) = if str_eq j k then v else lookup_or d k m

  -- `map.put(k, v)`.
  unfoldable pub insert : String → A → Dict A → Dict A
  insert k v [] = (k, v) ∷ []
  insert k v ((j, w) ∷ m) = if str_eq j k then (k, v) ∷ m else (j, w) ∷ insert k v m

  pub lookup_or-insert :
      (d : A) (k j : String) (v : A) (m : Dict A)
      → lookup_or d j (insert k v m) ≡ (if str_eq k j then v else lookup_or d j m)
  unfolding lookup_or insert
  lookup_or-insert d k j v [] = refl
  lookup_or-insert d k j v ((i, w) ∷ m) =
      ground (arith, eq_iff k j, eq_iff i k, eq_iff i j, lookup_or-insert d k j v m)
