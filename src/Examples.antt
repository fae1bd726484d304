-- ===== src/Examples.antt =====
-- Tests of the definitions at concrete inputs, and the theorems applied where their hypotheses hold.
mod Loops
mod Alarms
mod Wg
mod Cni
mod Tables
mod Veths
mod Packets
mod Endpoints
mod Peers
mod Devices
mod Claims
mod Hubs
mod Names
mod Engines
mod Sockets
mod Cluster
mod Mesh
mod Pods
mod Plugins
mod Receivers
mod Configs
