-- ===== src/ProxyManager/Tests.antt =====
-- Tests and witnesses of the proxy manager.
use omniswap.Prelude.{String, true, false, none, some, [], ◌∷◌, ◌≡◌, refl}
use omniswap.Prelude.Keys.{string_eq}
use omniswap.Prelude.Dict.{lookup}
use omniswap.Process.{Process, ready, stopped}
use omniswap.ProcessGroup.{after_inflight, has_member}
use omniswap.ProxyManager.{
  Group, Groups, find_group_by_model_name, stopped_group, swap_process_group,
}
use omniswap.ProxyManager.Swap.{swap_stops_others}
use omniswap.ProxyManager.Auth.{Request, AuthConfig, provided_key}

abbrev running : Process
running = record {
  state = ready;
  has_command = true;
  failed_start_count = 0;
  in_flight = 0;
  concurrency_limit = 10;
}

abbrev group_of : String → Group
group_of model = record {
  exclusive = true;
  persistent = false;
  processes = record {
    members = model ∷ [];
    swap = true;
    processes = (model, running) ∷ [];
    last_used = model;
  };
}

abbrev two_groups : Groups
two_groups = ("a", group_of "m") ∷ ("b", group_of "n") ∷ []

swap_stops_others_example :
    let out = swap_process_group "m" two_groups in
    (out.1 ≡ some "a")
    × (lookup "b" out.0 ≡ some (stopped_group after_inflight (group_of "n")))
    × ((q : Process) × (lookup "n" (stopped_group after_inflight (group_of "n")).processes.processes
          ≡ some q)
        × (q.state ≡ stopped))
unfolding find_group_by_model_name has_member
swap_stops_others_example =
    swap_stops_others "m" "a" "b" two_groups {g = group_of "m"} {h = group_of "n"} refl refl refl
      "n" {p = running} refl refl refl

abbrev by_key : Request
by_key = record {
  x_api_key = "k1";
  authorization = "";
  cf_ip_country = "IL";
  cf_connecting_ip = "";
  client_ip = "10.0.0.1";
  is_post = true;
}

abbrev one_key : AuthConfig
one_key = record { required_api_keys = "k1" ∷ []; api_key_labels = ("k1", "shay") ∷ [] }

test_bearer :
    provided_key (λ s. none) (λ s. s) (record by_key { authorization = "Bearer k2" }) ≡ "k2"
unfolding provided_key
test_bearer = refl

test_basic :
    provided_key
      (λ s. some "user:k3")
      (λ s. s)
      (record by_key { authorization = "Basic dXNlcjprMw==" })
    ≡ "k3"
unfolding provided_key
test_basic = refl
