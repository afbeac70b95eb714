-- ===== src/Examples/Histories.antt =====
-- A history of the server: two heartbeats, a report, a scheduling pass and a foreign worker that
-- knocks.
use agentic_cloud_cluster.Base.{◌≡◌, refl, none, List, [], ◌∷◌, pos, ℤ, arith, eq_iff}
use agentic_cloud_cluster.Float.Fixed.{fixed}
use agentic_cloud_cluster.Dict.{lookup}
use agentic_cloud_cluster.Server.Events.{Event, connects, beats, reports, schedules, run}
use agentic_cloud_cluster.Server.Events.Registered.{IsNamed, brings, run-unknown, run-IsNamed}
use agentic_cloud_cluster.Examples.{amounts, server, answers, round_robin, report_of, beat_of}

abbrev history : List (Event ℤ)
history =
    beats (beat_of "w1") (pos 110)
    ∷ reports answers (report_of "t1" "success")
    ∷ schedules (λ _. answers)
    ∷ connects answers
        (record { worker_id = "w9"; worker_ip = "10.0.0.7:1"; total = amounts (pos 1) (pos 1) })
        (pos 120)
    ∷ []

run-unknown_example : lookup "w9" (run round_robin server history).workers ≡ none
unfolding lookup brings
run-unknown_example =
    run-unknown round_robin "w9" server history refl (refl, (refl, (refl, (refl, tt))))

server-IsNamed : IsNamed server
unfolding IsNamed lookup
server-IsNamed id w there = ground (arith, there, eq_iff "w1" id, eq_iff "w2" id)

run-IsNamed_example : IsNamed (run round_robin server history)
run-IsNamed_example = run-IsNamed round_robin server history server-IsNamed
