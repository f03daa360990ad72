-- ===== src/Tests/Screens.antt =====
-- The tiles of the grid, and where a redirect may lead.
use beer_tab.Common.{
  ◌+◌, ◌≤◌, refl, arith, Text, ascii, text_eq, some, length, pos, negsuc, [], true,
}
use beer_tab.Layout.{isqrt, isqrt_loop, catalog_bounds, grid_geometry, tile_position}
use beer_tab.Layout.Tiles.{tile_inside, tiles-Apart, Apart}
use beer_tab.Protocol.Redirect.{redirect_target_allowed, until, has_byte, ends_behind}
use beer_tab.Protocol.Redirect.Hosts.{IsTrusted, redirect_target_allowed-IsTrusted}
use beer_tab.Client.{Config, Client, idle, no_error}
use beer_tab.Client.Worker.{Http, perform}
use beer_tab.Client.Worker.Safety.{IsSafe, perform-IsSafe}

-- Eight tiles on the whole screen.
tile_inside_example :
    let b = catalog_bounds in
    let g = grid_geometry 8 b in
    let (x, y) = tile_position g b 8 7 in
    (b.x ≤ x) × (x + g.tile_w ≤ b.x + b.w) × (b.y ≤ y) × (y + g.tile_h ≤ b.y + b.h)
unfolding grid_geometry catalog_bounds isqrt isqrt_loop
tile_inside_example =
    tile_inside 8 catalog_bounds (omega arith) (omega arith) (omega arith) 7 (omega arith)

tiles-Apart_example : Apart 8 catalog_bounds 2 5
unfolding grid_geometry catalog_bounds isqrt isqrt_loop
tiles-Apart_example =
    tiles-Apart 8 catalog_bounds (omega arith) (omega arith) (omega arith) 2 5 (omega arith)

abbrev script_url : Text
script_url = ascii "https://script.google.com/macros/echo"

redirect_target_allowed-IsTrusted_example : IsTrusted script_url
unfolding redirect_target_allowed until has_byte ends_behind text_eq
redirect_target_allowed-IsTrusted_example = redirect_target_allowed-IsTrusted script_url refl

-- A server that redirects every request.
abbrev pub restless : Http
restless = record {
  begins = λ url. true;
  refused = negsuc 0;
  exchange = λ x. record { code = pos 302; location = script_url; body = [] };
  error_string = λ code. ascii "error";
}

abbrev a_config : Config
a_config = record {
  wifi_ssid = ascii "home";
  api_endpoint = ascii "https://script.google.com/macros/exec";
  device_token = ascii "secret";
}

abbrev a_client : Client
a_client = record {
  ready = true;
  request = ascii "{}";
  response = [];
  http_code = pos 0;
  status = idle;
  error = no_error;
  error_detail = [];
}

perform-IsSafe_example :
    IsSafe
      (ascii "https://script.google.com/macros/exec")
      (some (ascii "{}"))
      (perform restless a_config a_client).1
    × (length (perform restless a_config a_client).1 ≤ 4)
perform-IsSafe_example = perform-IsSafe restless a_config a_client
