-- ===== src/Rathole/Config.antt =====
-- `render_toml` of crates/edge-rathole-bridge/src/config_writer.rs: what it hands to the TOML encoder.
use dun_tunel.Prelude.{
  true, false, ◌≡◌, refl, sym, ap, ◌∙◌, List, [], ◌∷◌, ◌++◌, Option, none, some, Text, text,
  text_eq, text_eq_iff, text_lt, arith, if◌then◌else◌,
}
use dun_tunel.Shared.Errors.{EdgeResult}
use dun_tunel.Rathole.Services.{RatholeService, RatholeTransport, tcp, udp}

pub record ServiceEntry : Type 0 where
  pub token : Text
  pub bind_addr : Text
  pub service_type : Option Text

-- The services in a map that is ordered by their names.
pub record RatholeConfig : Type 0 where
  pub bind_addr : Text
  pub services : List (Text × ServiceEntry)

abbrev pub type_of : Option RatholeTransport → Option Text
type_of none = none
type_of (some tcp) = none
type_of (some udp) = some (text "udp")

abbrev pub entry_of : RatholeService → ServiceEntry
entry_of s = record {
  token = s.token_hash;
  bind_addr = s.bind_addr;
  service_type = type_of s.transport;
}

-- `insert` of a `BTreeMap`.
unfoldable pub put : Text → ServiceEntry → List (Text × ServiceEntry) → List (Text × ServiceEntry)
put k e [] = (k, e) ∷ []
put k e ((j, f) ∷ m) =
    let rest = put k e m in
    if text_eq j k then (k, e) ∷ m else if text_lt k j then (k, e) ∷ (j, f) ∷ m else (j, f) ∷ rest

unfoldable pub collect :
    List RatholeService → List (Text × ServiceEntry) → List (Text × ServiceEntry)
unfolding put
collect [] m = m
collect (s ∷ ss) m = collect ss (put s.name (entry_of s) m)

unfoldable pub render_toml :
    (RatholeConfig → EdgeResult Text) → Text → List RatholeService → EdgeResult Text
unfolding collect
render_toml to_string server_bind services =
    to_string (record { bind_addr = server_bind; services = collect services [] })

text_lt-asym : (a b : Text) → text_lt a b ≡ true → text_lt b a ≡ false
unfolding text_lt
text_lt-asym a [] h = cc
text_lt-asym [] (d ∷ b) h = refl
text_lt-asym (c ∷ a) (d ∷ b) h = ground (arith, text_lt-asym a b)

text_lt-total : (a b : Text) → text_eq a b ≡ false → text_lt a b ≡ false → text_lt b a ≡ true
unfolding text_lt text_eq
text_lt-total [] [] h g = cc
text_lt-total [] (d ∷ b) h g = cc
text_lt-total (c ∷ a) [] h g = refl
text_lt-total (c ∷ a) (d ∷ b) h g = ground (arith, text_lt-total a b)

text_lt_trans : (a b c : Text) → text_lt a b ≡ true → text_lt b c ≡ true → text_lt a c ≡ true
unfolding text_lt
text_lt_trans a [] c h g = cc
text_lt_trans a (y ∷ b) [] h g = cc
text_lt_trans [] (y ∷ b) (z ∷ c) h g = refl
text_lt_trans (x ∷ a) (y ∷ b) (z ∷ c) h g = ground (arith, text_lt_trans a b c)

text_eq_comm : (a b : Text) → text_eq a b ≡ text_eq b a
text_eq_comm a b = ground (arith, text_eq_iff a b, text_eq_iff b a)

put_comm :
    (k l : Text) (e f : ServiceEntry) (m : List (Text × ServiceEntry))
    → text_eq k l ≡ false
    → put k e (put l f m) ≡ put l f (put k e m)
unfolding put
put_comm k l e f [] h =
    let h' : text_eq l k ≡ false = text_eq_comm l k ∙ h in
    ground (arith, h, h', text_lt-asym k l, text_lt-asym l k, text_lt-total k l, text_lt-total l k)
put_comm k l e f ((j, g) ∷ m) h =
    let h' : text_eq l k ≡ false = text_eq_comm l k ∙ h in
    ground (
      arith,
      h,
      h',
      text_eq_iff j k,
      text_eq_iff j l,
      text_eq_iff k j,
      text_eq_iff l j,
      text_lt-asym k l,
      text_lt-asym l k,
      text_lt-total k l,
      text_lt_trans k l j,
      text_lt_trans l k j,
      text_lt-total k j,
      text_lt-total l j,
      put_comm k l e f m h,
    )

collect-swap :
    (before after : List RatholeService) (a b : RatholeService) (m : List (Text × ServiceEntry))
    → text_eq a.name b.name ≡ false
    → collect (before ++ a ∷ b ∷ after) m ≡ collect (before ++ b ∷ a ∷ after) m
unfolding collect
collect-swap [] after a b m h =
    ap (collect after) (sym (put_comm a.name b.name (entry_of a) (entry_of b) m h))
collect-swap (s ∷ before) after a b m h =
    collect-swap before after a b (put s.name (entry_of s) m) h

-- The order in which the services come does not matter: two neighbours with different names can be
-- exchanged.
pub render_toml-swap :
    (to_string : RatholeConfig → EdgeResult Text) (server_bind : Text)
    (before after : List RatholeService) (a b : RatholeService)
    → text_eq a.name b.name ≡ false
    → render_toml to_string server_bind (before ++ a ∷ b ∷ after)
      ≡ render_toml to_string server_bind (before ++ b ∷ a ∷ after)
unfolding render_toml
render_toml-swap to_string server_bind before after a b h =
    ap (λ m. to_string (record { bind_addr = server_bind; services = m }))
      (collect-swap before after a b [] h)
