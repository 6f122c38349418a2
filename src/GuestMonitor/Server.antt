-- ===== src/GuestMonitor/Server.antt =====
-- src/guest_monitor.c, `guest_monitor_server_start` and `cloud_db_client_init`, and src/perf_counter.c,
-- `perf_agent_init`. What PCM, libcurl and the thread library answer is a parameter.
use ramryder.Prelude.{
  ◌≡◌, refl, Bool, true, false, not, List, [], ◌∷◌, ◌++◌, Option, none, some, ℤ, pos, minus_one,
  ◌==ℤ◌, if◌then◌else◌, take, Exec, done, abort, ◌>>=◌, out_of_bounds,
}
use ramryder.Scan.{Bytes, codes}
use ramryder.GuestMonitor.{Settings, guest_monitor_load_config}

-- The result of `pcm_c_init` and of `pthread_create`, and whether `curl_easy_init` returns a handle.
pub record MonitorHost : Type 0 where
  pub pcm_c_init : ℤ
  pub pthread_create : ℤ
  pub has_curl : Bool

-- What libcurl is told: the URL, the headers, and a proxy if there is to be one. A null pointer is
-- `none`.
pub record CloudDb : Type 0 where
  pub url : Option Bytes
  pub headers : List Bytes
  pub proxy : Option (Option Bytes)

-- `snprintf` of the token into an array of 512 bytes; with a null pointer it is not defined.
pub auth_header : Option Bytes → Exec Bytes
auth_header none = abort out_of_bounds
auth_header (some token) = done (take 511 (codes "Authorization: Token " ++ token))

-- `none` stands for the return code -1.
pub cloud_db_client_init : MonitorHost → Settings → Exec (Option CloudDb)
cloud_db_client_init host c =
    if not host.has_curl
    then done none
    else (auth_header c.influxdb_token >>= λ header. done (
        some (record {
          url = c.influxdb_url;
          headers = codes "Content-Type: text/plain" ∷ header ∷ [];
          proxy = if c.use_proxy then some c.proxy_addr else none;
        })))

pub perf_agent_init : MonitorHost → ℤ
perf_agent_init host = if not (host.pcm_c_init ==ℤ pos 0) then minus_one else pos 0

-- The part of `guest_monitor_server_start` behind the database.
pub start_agent : MonitorHost → Settings → Option CloudDb → Option (Settings × Option CloudDb)
start_agent host c db =
    if not (perf_agent_init host ==ℤ pos 0)
    then none
    else if not (host.pthread_create ==ℤ pos 0)
    then none
    else some (c, db)

pub start_cloud : MonitorHost → Settings → Option CloudDb → Option (Settings × Option CloudDb)
start_cloud host c none = none
start_cloud host c (some db) = start_agent host c (some db)

pub start_loaded : MonitorHost → Option Settings → Exec (Option (Settings × Option CloudDb))
start_loaded host none = done none
start_loaded host (some c) =
    if c.enable_cloud_db
    then (cloud_db_client_init host c >>= λ db. done (start_cloud host c db))
    else done (start_agent host c none)

pub guest_monitor_server_start :
    MonitorHost → Option Bytes → Exec (Option (Settings × Option CloudDb))
guest_monitor_server_start host config_file =
    guest_monitor_load_config config_file >>= start_loaded host

-- Without the database, the monitor starts when PCM and the thread do.
pub guest_monitor_server_start-runs :
    (host : MonitorHost) (config_file : Option Bytes) (c : Settings)
    → guest_monitor_load_config config_file ≡ done (some c)
    → c.enable_cloud_db ≡ false
    → host.pcm_c_init ≡ pos 0
    → host.pthread_create ≡ pos 0
    → guest_monitor_server_start host config_file ≡ done (some (c, none))
unfolding guest_monitor_server_start start_loaded start_agent perf_agent_init
guest_monitor_server_start-runs host config_file c loaded off pcm thread =
    rw (loaded, off, pcm, thread) refl

-- With the database but no token in the file, the monitor formats a null pointer.
pub guest_monitor_server_start_unauthorized :
    (host : MonitorHost) (config_file : Option Bytes) (c : Settings)
    → guest_monitor_load_config config_file ≡ done (some c)
    → c.enable_cloud_db ≡ true
    → c.influxdb_token ≡ none
    → host.has_curl ≡ true
    → guest_monitor_server_start host config_file ≡ abort out_of_bounds
unfolding guest_monitor_server_start start_loaded cloud_db_client_init auth_header
guest_monitor_server_start_unauthorized host config_file c loaded on missing curl =
    rw (loaded, on, curl, missing) refl
