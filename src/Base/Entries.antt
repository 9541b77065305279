-- ===== src/Base/Entries.antt =====
-- Maps from texts, as lists of their entries.
use mathlib.Core.Path.{◌≡◌}
use mathlib.Core.Bool.{not}
use mathlib.Core.List.{List, [], ◌∷◌}
use mathlib.Core.Option.{none}
use Prim.Native.String.{String}
use native.Mathlib.Omega.{arith}
use text.Mathlib.TextEquality.{eq_iff}
use distributed_traffic_serv.Base.Tests.{if◌then◌else◌}
use distributed_traffic_serv.Base.Equality.{◌==◌, string_eq, lookup}
use distributed_traffic_serv.Base.Lists.{filter}

-- What is found where the entries of one key are taken out.
pub lookup-without {ℓ} :
    {A : Type ℓ} (j k : String) (m : List (String × A))
    → lookup j (filter (λ e. not (e.0 == k)) m) ≡ (if k == j then none else lookup j m)
unfolding lookup filter
lookup-without j k [] = ground (arith, eq_iff k j)
lookup-without j k ((i, e) ∷ m) =
    ground (arith, eq_iff i k, eq_iff i j, eq_iff k j, lookup-without j k m)
