-- ===== src/Tests/TimeSeries.antt =====
-- Sessions of the explorer of time series and of the view of topics.
use cocodb.Base.{◌≡◌, refl, true, some, List, [], ◌∷◌}
use cocodb.Base.Text.{Text, codes, text_eq, trim}
use cocodb.Base.Result.{Result, ok, err}
use cocodb.Studio.Json.{Json, object, end, nat}
use cocodb.Studio.Api.{HttpRequest}
use cocodb.Studio.Api.Endpoints.{query_time_series}
use cocodb.Studio.TimeSeries.Handlers.{Event, select, load_answers, run}
use cocodb.Studio.Topics
use cocodb.Studio.Topics.Published.{OnePublish, published-OnePublish}
use cocodb.Studio.TimeSeries.Pending.{Guarded}
use cocodb.Studio.TimeSeries.Guard.{explored, explored-Guarded}
use cocodb.Studio.TimeSeries.Overtaken.{IsShown, last_series-IsShown}
use cocodb.Studio.TimeSeries.{View, mount, closure, points_request}

abbrev any_object : Text → Result Json
any_object t = ok (object end)

abbrev same_date : Text → Result Text
same_date t = ok t

abbrev noon : Text
noon = codes "2026-01-01T12:00"

abbrev events : List Event
events = select (codes "cpu") ∷ select (codes "disk") ∷ []

explored-Guarded_example : Guarded (explored any_object same_date noon noon noon events)
explored-Guarded_example = explored-Guarded any_object same_date noon noon noon events

abbrev request_of : Text → HttpRequest
request_of series = query_time_series (record {
  series = series;
  start = some noon;
  finish = some noon;
  tags = end;
  limit = nat 100;
  descending = true;
})

abbrev no_load : View
no_load = mount noon noon noon

request_is :
    (points_request any_object same_date (closure (record no_load { selected = codes "cpu" }))
      ≡ ok (request_of (codes "cpu")))
    × (points_request any_object same_date (closure (record no_load { selected = codes "disk" }))
        ≡ ok (request_of (codes "disk")))
unfolding points_request trim
request_is = (refl, refl)

last_series-IsShown_example :
    let u = run any_object same_date no_load (select (codes "cpu") ∷ select (codes "disk") ∷ []) in
    IsShown any_object same_date [] (
      run any_object same_date u
        (load_answers 0 (ok []) ∷ load_answers 0 (err (codes "timeout")) ∷ []))
    × IsShown any_object same_date [] (
        run any_object same_date u
          (load_answers 1 (err (codes "timeout")) ∷ load_answers 0 (ok []) ∷ []))
unfolding text_eq trim
last_series-IsShown_example =
    last_series-IsShown any_object same_date no_load (codes "cpu") (codes "disk")
      (request_of (codes "cpu")) (request_of (codes "disk")) (err (codes "timeout")) [] refl refl
      refl refl refl request_is.0 request_is.1

published-OnePublish_example :
    OnePublish (Topics.run Topics.mount (Topics.publish ∷ Topics.publish ∷ []))
published-OnePublish_example = published-OnePublish (Topics.publish ∷ Topics.publish ∷ [])
