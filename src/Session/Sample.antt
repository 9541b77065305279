-- ===== src/Session/Sample.antt =====
-- A way to write users as texts, which shows that the assumptions on JSON can be met: each
-- character of a field stands behind a comma, and a full stop ends the field.
use Prim.Native.Char.{Char, code}
use Prim.Native.String.{[], ◌∷◌}
use text.Mathlib.TextLemmas.{cons-ne-nil}
use distributed_traffic_serv.Base.{
  ◌≡◌, refl, String, Option, none, some, ◌==◌, nat_eq, string_eq, if◌then◌else◌, truthy_of_ne,
  arith, ◌≢◌, truthy, true,
}
use distributed_traffic_serv.Session.Roles.{
  UserRole, driver, enforcement, admin, Region, ie, gb, fr, User,
}
use distributed_traffic_serv.Session.Provider.{Json, IsFaithful}

comma : Char
comma = ","

stop : Char
stop = "."

write : String → String → String
unfolding comma stop
write [] rest = stop ∷ rest
write (c ∷ s) rest = comma ∷ c ∷ write s rest

push : Char → Option (String × String) → Option (String × String)
push c none = none
push c (some (s, rest)) = some (c ∷ s, rest)

read : String → Option (String × String)
unfolding push
read [] = none
read (mark ∷ []) = if code mark == b'.' then some ([], []) else none
read (mark ∷ c ∷ s) =
    let more = push c (read s) in if code mark == b'.' then some ([], c ∷ s) else more

read-write : (s rest : String) → read (write s rest) ≡ some (s, rest)
unfolding read write
read-write [] [] = refl
read-write [] (c ∷ rest) = refl
read-write (c ∷ s) rest = ground (arith, read-write s rest)

write_role : UserRole → String → String
write_role driver rest = write "d" rest
write_role enforcement rest = write "e" rest
write_role admin rest = write "a" rest

role_of : String → UserRole
role_of s = if s == "d" then driver else if s == "e" then enforcement else admin

write_region : Region → String → String
write_region ie rest = write "i" rest
write_region gb rest = write "g" rest
write_region fr rest = write "f" rest

region_of : String → Region
region_of s = if s == "i" then ie else if s == "g" then gb else fr

write_plate : Option String → String
write_plate none = write "n" ""
write_plate (some p) = write "s" (write p "")

infixl 5 ◌>>=◌
abbrev ◌>>=◌ {ℓ κ} : {A : Type ℓ} {B : Type κ} → Option A → (A → Option B) → Option B
none >>= f = none
some a >>= f = f a

read_plate : String → Option (Option String)
read_plate s = do
  (kind, r) ← read s
  if kind == "n" then some none else read r >>= λ (p, _). some (some p)

pub stringify : User → String
stringify u =
    write u.id
      (write u.email (write_role u.role (write_region u.region (write_plate u.plate_number))))

pub parse : String → Option User
parse s = do
  (id, s₁) ← read s
  (email, s₂) ← read s₁
  (role, s₃) ← read s₂
  (region, s₄) ← read s₃
  plate ← read_plate s₄
  some (record {
    id = id;
    email = email;
    role = role_of role;
    region = region_of region;
    plate_number = plate;
  })

abbrev pub json : Json
json = record { stringify = stringify; parse = parse }

read-role :
    (r : UserRole) (rest : String)
    → (k : String) × (read (write_role r rest) ≡ some (k, rest)) × (role_of k ≡ r)
unfolding write_role role_of
read-role driver rest = ("d", read-write "d" rest, refl)
read-role enforcement rest = ("e", read-write "e" rest, refl)
read-role admin rest = ("a", read-write "a" rest, refl)

read-region :
    (r : Region) (rest : String)
    → (k : String) × (read (write_region r rest) ≡ some (k, rest)) × (region_of k ≡ r)
unfolding write_region region_of
read-region ie rest = ("i", read-write "i" rest, refl)
read-region gb rest = ("g", read-write "g" rest, refl)
read-region fr rest = ("f", read-write "f" rest, refl)

read_plate-write : (p : Option String) → read_plate (write_plate p) ≡ some p
unfolding read_plate write_plate read write
read_plate-write none = refl
read_plate-write (some p) = rw (read-write "s" (write p "")) (rw (read-write p ""))

parse-stringify : (u : User) → parse (stringify u) ≡ some u
unfolding parse stringify
parse-stringify u =
    let plate : String = write_plate u.plate_number in
    let region : String = write_region u.region plate in
    let role : String = write_role u.role region in
    let (k, read_k, k_role) = read-role u.role region in
    let (j, read_j, j_region) = read-region u.region plate in
    rw (read-write u.id (write u.email role)) (
      rw (read-write u.email role)
        (rw read_k (rw read_j (rw (read_plate-write u.plate_number) (rw (k_role, j_region) refl)))))

write-ne-nil : (s rest : String) → write s rest ≢ ""
unfolding write
write-ne-nil [] rest e = cons-ne-nil _ _ e
write-ne-nil (c ∷ s) rest e = cons-ne-nil _ _ e

stringify-truthy : (u : User) → truthy (stringify u) ≡ true
unfolding stringify
stringify-truthy u = truthy_of_ne (stringify u) (write-ne-nil u.id _)

pub json-IsFaithful : IsFaithful json
json-IsFaithful = record { parse-stringify = parse-stringify; stringify-truthy = stringify-truthy }
