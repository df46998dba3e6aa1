-- ===== src/Server/History.antt =====
-- Histories of requests to connect and disconnect.
use mathlib.Core.List.Perm
use bee_r_type.Prelude.{ℕ, ◌+◌, ◌^◌, ◌<◌, ◌≤◌, List, [], ◌∷◌, arith, length}
use bee_r_type.Platform.{Platform}
use bee_r_type.Server.{Server, init, req_connect_data, disconnect_data, reply}
use bee_r_type.Server.Clients.{IsValid, create_client_lem, disconnect_data_lem}

-- What the packets of clients make the server do to its list.
pub data Request ⦃p : Platform⦄ : Type 0 where
  connects disconnects : p.Endpoint → Request

module _ ⦃p : Platform⦄ where
  open p use {Endpoint}

  unfoldable pub step : Request → Server → Server
  step (connects e) s = (req_connect_data e s).0
  step (disconnects e) s = (disconnect_data e s).0

  unfoldable pub history : List Request → Server → Server
  history [] s = s
  history (r ∷ rs) s = history rs (step r s)

  pub step-IsValid :
      (r : Request) (s : Server)
      → IsValid s
      → s.nb_clients + 1 < 2 ^ 32
      → IsValid (step r s) × ((step r s).nb_clients ≤ s.nb_clients + 1)
  unfolding step req_connect_data reply
  step-IsValid (connects e) s v room =
      let (valid, _, _, _, bound) = create_client_lem e s v room in
      (
        record {
          ids = valid.ids;
          bounded = valid.bounded;
          own = valid.own;
          separate = valid.separate;
        },
        bound,
      )
  step-IsValid (disconnects e) s v room =
      let (valid, _, _, _, _, kept) = disconnect_data_lem e s v in (valid, omega arith)

  history-IsValid :
      (rs : List Request) (s : Server)
      → IsValid s
      → s.nb_clients + length rs < 2 ^ 32
      → IsValid (history rs s)
  unfolding history
  history-IsValid [] s v room = v
  history-IsValid (r ∷ rs) s v room =
      let (valid, bound) = step-IsValid r s v (omega arith) in
      history-IsValid rs (step r s) valid (omega arith)

  -- After every history of fewer than 2 ^ 32 requests to connect or disconnect, in any order and by any
  -- endpoints, the server that began with no client is valid: no identifier is lost or in use twice.
  pub history-init-IsValid :
      (unspecified : Endpoint) (unset : ℕ) (rs : List Request)
      → length rs < 2 ^ 32
      → IsValid (history rs (init unspecified unset))
  unfolding init
  history-init-IsValid unspecified unset rs short =
      history-IsValid rs (init unspecified unset)
        (record { ids = Perm.refl []; bounded = omega arith; own = tt; separate = tt })
        (omega arith)
