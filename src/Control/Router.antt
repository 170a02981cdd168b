-- ===== src/Control/Router.antt =====
-- The routes of edge-control, `build_router` of crates/edge-control/src/routes/mod.rs, and the
-- middleware `require_api_key` of auth/api_key.rs. A path is its segments.
use dun_tunel.Prelude.{
  ℕ, Bool, true, false, List, [], ◌∷◌, Option, none, some, Text, text, text_eq, if◌then◌else◌,
}
use dun_tunel.Prelude.Results.{Result, ok, err}

pub data Method : Type 0 where
  get head post patch delete other_method : Method

-- The handlers, with what they take from the path.
pub data Endpoint : Type 0 where
  create_tunnel : Endpoint
  deprovision_tunnel : Text → Endpoint
  update_tunnel_token : Text → Endpoint
  create_sfu_router : Text → Endpoint
  remove_sfu_viewer : Text → Text → Endpoint
  viewer_ws : Endpoint
  verify_tunnel : Endpoint
  state_snapshot : Endpoint
  healthz : Endpoint

pub data Piece : Type 0 where
  name : Text → Piece
  param : Piece

-- What the parameters of a pattern stand for, where it matches.
unfoldable pub captures : List Piece → List Text → Option (List Text)
captures [] [] = some []
captures [] (s ∷ segments) = none
captures (p ∷ ps) [] = none
captures (name n ∷ ps) (s ∷ segments) =
    let rest = captures ps segments in if text_eq n s then rest else none
captures (param ∷ ps) (s ∷ segments) = elim s [
  | [] ↦ none
  | c ∷ t ↦ elim (captures ps segments) [ none ↦ none | some cs ↦ some ((c ∷ t) ∷ cs) ]
]

pub record Entry : Type 0 where
  pub pattern_of : List Piece
  pub method : Method
  pub endpoint : List Text → Endpoint

abbrev pub first_of : List Text → Text
first_of [] = []
first_of (c ∷ cs) = c

abbrev pub second_of : List Text → Text
second_of [] = []
second_of (c ∷ cs) = first_of cs

abbrev pub tunnels : List Piece → List Piece
tunnels rest = name (text "v1") ∷ name (text "tunnels") ∷ rest

abbrev pub build_router : List Entry
build_router =
    record { pattern_of = tunnels []; method = post; endpoint = λ _. create_tunnel }
    ∷ record {
      pattern_of = tunnels (param ∷ []);
      method = delete;
      endpoint = λ cs. deprovision_tunnel (first_of cs);
    }
    ∷ record {
      pattern_of = tunnels (param ∷ name (text "token") ∷ []);
      method = patch;
      endpoint = λ cs. update_tunnel_token (first_of cs);
    }
    ∷ record {
      pattern_of = tunnels (param ∷ name (text "sfu") ∷ name (text "router") ∷ []);
      method = post;
      endpoint = λ cs. create_sfu_router (first_of cs);
    }
    ∷ record {
      pattern_of = tunnels (param ∷ name (text "sfu") ∷ name (text "viewer") ∷ param ∷ []);
      method = delete;
      endpoint = λ cs. remove_sfu_viewer (first_of cs) (second_of cs);
    }
    ∷ record {
      pattern_of =
          name (text "v1") ∷ name (text "sfu") ∷ name (text "viewer") ∷ name (text "ws") ∷ [];
      method = get;
      endpoint = λ _. viewer_ws;
    }
    ∷ record {
      pattern_of = name (text "v1") ∷ name (text "tunnel") ∷ name (text "verify") ∷ [];
      method = post;
      endpoint = λ _. verify_tunnel;
    }
    ∷ record {
      pattern_of = name (text "v1") ∷ name (text "state") ∷ name (text "snapshot") ∷ [];
      method = get;
      endpoint = λ _. state_snapshot;
    }
    ∷ record { pattern_of = name (text "healthz") ∷ []; method = get; endpoint = λ _. healthz }
    ∷ []

-- By the header `x-edge-api-key`, where it is readable: the status of a refusal.
unfoldable pub require_api_key : Text → Option Text → Result ℕ (Unit {0})
require_api_key expected none = if text_eq [] expected then ok tt else err 401
require_api_key expected (some header) = if text_eq header expected then ok tt else err 401

abbrev pub same_method : Method → Method → Bool
same_method get m = elim m [ get ↦ true | head ↦ true | _ ↦ false ]
same_method post m = elim m [ post ↦ true | _ ↦ false ]
same_method patch m = elim m [ patch ↦ true | _ ↦ false ]
same_method delete m = elim m [ delete ↦ true | _ ↦ false ]
same_method head m = elim m [ head ↦ true | _ ↦ false ]
same_method other_method m = false

abbrev pub not_allowed : Result ℕ Endpoint → Result ℕ Endpoint
not_allowed (ok e) = ok e
not_allowed (err status) = err 405

abbrev pub taken : Entry → Method → Option (List Text) → Result ℕ Endpoint → Result ℕ Endpoint
taken e m none rest = rest
taken e m (some cs) rest = if same_method e.method m then ok (e.endpoint cs) else not_allowed rest

-- Where axum sends a request: to a handler, or to a 404 or a 405. A handler for GET gets HEAD too.
unfoldable pub route_to : List Entry → Method → List Text → Result ℕ Endpoint
unfolding captures
route_to [] m segments = err 404
route_to (e ∷ es) m segments =
    let rest = route_to es m segments in taken e m (captures e.pattern_of segments) rest
