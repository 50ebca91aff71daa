-- ===== src/Weather/Fetching.antt =====
-- services/weatherlink-kafka/api/weatherlink.go (FetchHistoricData) and api/client.go (makeRequest).
use roach.Base.{ℕ, ◌-◌, List, ◌++◌, if◌then◌else◌, ltb, leb, Text}
use roach.Base.Strings.{codes, format_int}
use roach.Weather.Windows.{TimeWindow, window_size}
use roach.Weather.Records.{SensorReading}

-- What the API client is made with.
pub record ApiClient : Type 0 where
  pub api_key : Text
  pub station_id : Text

-- What becomes of a request: http.Client gives an error, which it wraps; a status that is not 200,
-- with its body; the body cannot be read, or not parsed; or an answer.
pub data Response : Type 0 where
  transport_failed : Text → Response
  bad_status : ℕ → Text → Response
  unread : Text → Response
  unparsed : Text → Response
  answered : List SensorReading → Response

-- What FetchHistoricData returns: the text of an error, or the sensors.
pub data Fetched : Type 0 where
  failed : Text → Fetched
  fetched : List SensorReading → Fetched

abbrev pub historic_url : ApiClient → TimeWindow → Text
historic_url api w =
    codes "https://api.weatherlink.com/v2/historic/"
    ++ api.station_id
    ++ codes "?api-key="
    ++ api.api_key
    ++ codes "&start-timestamp="
    ++ format_int w.start
    ++ codes "&end-timestamp="
    ++ format_int w.end

-- The error of http.Client names the URL.
abbrev pub transport_error : Text → Text → Text
transport_error url e = codes "Get \"" ++ url ++ codes "\": " ++ e

abbrev pub make_request : Text → Response → Fetched
make_request url (transport_failed e) =
    failed (codes "failed to fetch historic data: " ++ transport_error url e)
make_request url (bad_status n body) = failed (
    codes "failed to fetch historic data: API request failed with status "
    ++ format_int n
    ++ codes ": "
    ++ body)
make_request url (unread e) = failed (codes "failed to fetch historic data: " ++ e)
make_request url (unparsed e) = failed (codes "failed to parse historic data: " ++ e)
make_request url (answered sensors) = fetched sensors

-- FetchHistoricData
unfoldable pub fetch_historic_data : ApiClient → TimeWindow → Response → Fetched
fetch_historic_data api w response =
    if ltb window_size (w.end - w.start)
    then failed (
        codes "time window exceeds 24 hours: "
        ++ format_int (w.end - w.start)
        ++ codes " seconds (max: 86400)")
    else if leb w.end w.start
    then failed (codes "start timestamp must be before end timestamp")
    else make_request (historic_url api w) response
